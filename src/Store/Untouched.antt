-- ===== src/Store/Untouched.antt =====
-- Batches of transitions (lsfmgr/store/memory.py, transition_many) and the records that their
-- guards refuse.
use pyqt_lsf_job_manager.Store.Invariant.{
  >>=-Keeps, >>=-Keeps, transition_many-Keeps, transition_spec-Keeps,
}
use pyqt_lsf_job_manager.Base.{
  All, Bool, Bool-cases, List, Option, Option-cases, String, String_discrete, [], any, ap, arith,
  false, inl, inr, ite, ite_ind, none, or_default, refl, some, string_key, sym, true, true_ne_false,
  ◌∙◌, ◌∷◌, ◌≡◌,
}
use mathlib.Core.Path.{subst₂}
use pyqt_lsf_job_manager.States.{JobRecord, Time}
use pyqt_lsf_job_manager.Store.Effects.{Store, and_then, ok}
use pyqt_lsf_job_manager.Store.Fields.{is_key_field}
use pyqt_lsf_job_manager.Store.Update.{
  Guard, Spec, next_record, passes, reject_all, transition_many, transition_many_impl,
  transition_spec,
}
use pyqt_lsf_job_manager.Store.Consistent.{IsConsistent, Keeps}
use pyqt_lsf_job_manager.Store.Writes.{OnlyWrites, record_at, replace_rec-writes}

-- The guard of a spec for the key refuses the record, and the spec names no new key.
abbrev pub Spares : String → JobRecord → Spec → Type 0
Spares key r spec =
    (any is_key_field spec.fields ≡ false) × (spec.job_key ≡ key → passes spec.guard r ≡ false)

abbrev pub passed : Guard → Option JobRecord → Bool
passed g none = true
passed g (some r) = passes g r

transition_spec-Spares :
    (id key : String) (now : Time) (spec : Spec) (s : Store) (r : JobRecord)
    → IsConsistent s
    → record_at id key s ≡ some r
    → Spares key r spec
    → record_at id key (transition_spec id now spec s).1 ≡ some r
unfolding transition_spec
transition_spec-Spares id key now spec s r c e (f, g) =
    elim (Option-cases (record_at id spec.job_key s)) [
      | inl n ↦ rw (n, transition_spec) e
      | inr (old, h) ↦ elim (Bool-cases (passes spec.guard old)) [
        | inr b ↦ rw (h, b, transition_spec) e
        | inl b ↦
            let st = or_default old.state spec.new_state in
            let new = next_record old old.revision now st spec.fields in
            let (ki, kk) = c.keyed id spec.job_key old h in
            let (t, p, w) =
              replace_rec-writes old now st spec.fields s
                (subst₂ (λ a k. record_at a k s ≡ some old) (sym ki) (sym kk) h) f in
            let w' : OnlyWrites id spec.job_key new s t =
              subst₂ (λ a k. OnlyWrites a k new s t) ki kk w in
            let q : transition_spec id now spec s ≡ (ok (some new), t) = ground arith in
            let ne : spec.job_key ≡ key → ⊥ = λ x. true_ne_false (
              sym (g x)
              ∙ ap (passed spec.guard) (sym e ∙ ap (λ k. record_at id k s) (sym x) ∙ h)
              ∙ b) in
            let kept : ite (String_discrete spec.job_key key) (some new) (record_at id key s)
                ≡ some r =
              ite_ind (λ o. o ≡ some r) (String_discrete spec.job_key key) (λ x. absurd (ne x))
                (λ _. e) in
            ap (λ a. record_at id key a.1) q
            ∙ w' id key
            ∙ ite_ind (λ o. o ≡ some r) (String_discrete id id) (λ _. kept) (λ _. e)
      ]
    ]

-- The record stands under the key of a consistent store.
abbrev pub Stands : String → String → JobRecord → Store → Type 0
Stands id key r s = IsConsistent s × (record_at id key s ≡ some r)

transition_many_impl-Spares :
    (id key : String) (specs : List Spec) (now : Time) (r : JobRecord)
    → All (Spares key r) specs
    → Keeps (Stands id key r) (transition_many_impl id specs now)
unfolding transition_many_impl
transition_many_impl-Spares id key [] now r h = λ s c. c
transition_many_impl-Spares id key (spec ∷ specs) now r (g, h) =
    >>=-Keeps (Stands id key r) (transition_spec id now spec) _
      (λ s (c, e).
        (transition_spec-Keeps id now spec s c, transition_spec-Spares id key now spec s r c e g))
      (λ _.
        >>=-Keeps (Stands id key r) (transition_many_impl id specs now) _
          (transition_many_impl-Spares id key specs now r h) (λ a s c. c))

reject_all-Spares :
    (key : String) (r : JobRecord) (specs : List Spec) (s : Store)
    → All (Spares key r) specs
    → reject_all specs s ≡ (ok tt, s)
reject_all-Spares key r [] s h = refl
reject_all-Spares key r (spec ∷ specs) s ((f, _), h) =
    ground (arith, f, reject_all-Spares key r specs s h)

-- A batch of transitions leaves the record as it is under its key of the job set, in a consistent
-- store, if each spec for that key has a guard that refuses the record, and no spec changes a key.
pub transition_many-Spares :
    (id key : String) (specs : List Spec) (now : Time) (s : Store) (r : JobRecord)
    → IsConsistent s
    → record_at id key s ≡ some r
    → All (Spares key r) specs
    → record_at id key (transition_many id specs now s).1 ≡ some r
unfolding transition_many
transition_many-Spares id key specs now s r c e h =
    ap (λ p. record_at id key (and_then p.0 (λ _. transition_many_impl id specs now) p.1).1)
      (reject_all-Spares key r specs s h)
    ∙ (transition_many_impl-Spares id key specs now r h s (c, e)).1

pub transition_many-Stands :
    (id key : String) (specs : List Spec) (now : Time) (r : JobRecord)
    → All (Spares key r) specs
    → Keeps (Stands id key r) (transition_many id specs now)
transition_many-Stands id key specs now r h s (c, e) =
    (transition_many-Keeps id specs now s c, transition_many-Spares id key specs now s r c e h)
