-- ===== src/Store/Renewals.antt =====
-- One transition, and the records that it reaches (lsfmgr/store/memory.py, transition).
use pyqt_lsf_job_manager.Base.{
  Bool, Bool-cases, List, Option, Option-cases, String, String_discrete, any, ap, false, inl, inr,
  ite_ind, none, or_default, refl, some, string_key, subst, sym, true, true_ne_false, ◌∙◌, ◌≡◌, ◌⊎◌,
}
use pyqt_lsf_job_manager.States.{JobRecord, JobState, Time}
use pyqt_lsf_job_manager.Store.Effects.{Result, Store, err, job_not_found, ok}
use pyqt_lsf_job_manager.Store.Fields.{Field, is_key_field}
use pyqt_lsf_job_manager.Store.Update.{next_record, transition}
use pyqt_lsf_job_manager.Store.Consistent.{IsConsistent, Keeps}
use pyqt_lsf_job_manager.Store.Invariant.{transition-Keeps}
use pyqt_lsf_job_manager.Store.Writes.{OnlyWrites, record_at, transition-refuses, transition-writes}
use pyqt_lsf_job_manager.Store.Untouched.{Stands, passed}
use mathlib.Core.Path.{subst₂}

-- A transition of another record, and one that the guard refuses, leaves the record.
pub transition-Stands :
    (id key i k : String) (st : Option JobState) (g : JobRecord → Bool) (fs : List Field)
    (now : Time) (r : JobRecord)
    → any is_key_field fs ≡ false
    → (i ≡ id → k ≡ key → g r ≡ false)
    → Keeps (Stands id key r) (transition i k st (some g) fs now)
transition-Stands id key i k st g fs now r f h s (c, e) =
    (transition-Keeps i k st (some g) fs now s c, stands)
  where
    refused :
        {x : Result (Option JobRecord)}
        → transition i k st (some g) fs now s ≡ (x, s)
        → record_at id key (transition i k st (some g) fs now s).1 ≡ some r
    refused q = ap (λ a. record_at id key a.1) q ∙ e

    wrote :
        (old : JobRecord)
        → record_at i k s ≡ some old
        → g old ≡ true
        → record_at id key (transition i k st (some g) fs now s).1 ≡ some r
    wrote old m b =
        let (t, q, _, w) = transition-writes i k st (some g) fs now s old c m f b in
        ap (λ a. record_at id key a.1) q
        ∙ w id key
        ∙ ite_ind (λ o. o ≡ some r) (String_discrete i id)
            (λ x.
              ite_ind (λ o. o ≡ some r) (String_discrete k key)
                (λ y. absurd (
                  true_ne_false (
                    sym (h x y)
                    ∙ ap (passed (some g))
                        (sym e ∙ subst₂ (λ a l. record_at a l s ≡ some old) x y m)
                    ∙ b)))
                (λ _. e))
            (λ _. e)

    stands : record_at id key (transition i k st (some g) fs now s).1 ≡ some r
    stands =
        let (_, gone, stays) = transition-refuses i k st (some g) fs now s in
        elim (Option-cases (record_at i k s)) [
          | inl n ↦ refused (gone f n)
          | inr (old, m) ↦ elim (Bool-cases (g old)) [
            | inl b ↦ wrote old m b
            | inr b ↦ refused (stays old f m b)
          ]
        ]

-- A transition in a consistent store returns, or the record is gone.
pub transition-returns :
    (i k : String) (st : Option JobState) (g : JobRecord → Bool) (fs : List Field) (now : Time)
    (s : Store)
    → IsConsistent s
    → any is_key_field fs ≡ false
    → ((o : Option JobRecord) × ((transition i k st (some g) fs now s).0 ≡ ok o))
      ⊎ ((transition i k st (some g) fs now s).0 ≡ err (job_not_found i k))
transition-returns i k st g fs now s c f =
    let (_, gone, stays) = transition-refuses i k st (some g) fs now s in
    elim (Option-cases (record_at i k s)) [
      | inl n ↦ inr (ap (λ a. a.0) (gone f n))
      | inr (old, m) ↦ elim (Bool-cases (g old)) [
        | inl b ↦
            let (t, q, _, w) = transition-writes i k st (some g) fs now s old c m f b in
            inl (_, ap (λ a. a.0) q)
        | inr b ↦ inl (none, ap (λ a. a.0) (stays old f m b))
      ]
    ]

-- A transition of the record that the guard lets through.
pub transition-renews :
    (id key i k : String) (st : Option JobState) (g : JobRecord → Bool) (fs : List Field)
    (now : Time) (s : Store) (r : JobRecord)
    → i ≡ id
    → k ≡ key
    → Stands id key r s
    → any is_key_field fs ≡ false
    → g r ≡ true
    → let new = next_record r r.revision now (or_default r.state st) fs in
      (t : Store) × (transition i k st (some g) fs now s ≡ (ok (some new), t)) × Stands id key new t
transition-renews id key i k st g fs now s r p q (c, e) f b =
    let new = next_record r r.revision now (or_default r.state st) fs in
    let e' : record_at i k s ≡ some r =
      subst₂ (λ a l. record_at a l s ≡ some r) (sym p) (sym q) e in
    let (t, h, _, w) = transition-writes i k st (some g) fs now s r c e' f b in
    let w' = subst₂ (λ a l. OnlyWrites a l new s t) p q w in
    let kept = subst IsConsistent (ap (λ a. a.1) h) (transition-Keeps i k st (some g) fs now s c) in
    let at_key : record_at id key t ≡ some new =
      w' id key
      ∙ ite_ind (λ o. o ≡ some new) (String_discrete id id)
          (λ _.
            ite_ind (λ o. o ≡ some new) (String_discrete key key) (λ _. refl)
              (λ n. absurd (n refl)))
          (λ n. absurd (n refl)) in
    (t, h, (kept, at_key))
