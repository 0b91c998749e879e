-- ===== src/Killing/MarkedOne.antt =====
-- The mark of one record (lsfmgr/killer.py, _mark_killed, the body of its loop).
use pyqt_lsf_job_manager.Store.Renewals.{transition-Stands, transition-renews, transition-returns}
use pyqt_lsf_job_manager.Base.{
  Bool, Bool-cases, List, Option, String, [], any, ap, arith, false, if◌then◌else◌, inl, inr, none,
  refl, some, string_key, subst, sym, true, ◌&&◌, ◌∙◌, ◌∷◌, ◌≡◌, ◌⊎◌,
}
use pyqt_lsf_job_manager.States.{JobRecord, JobState, Time, is_on_lsf}
use pyqt_lsf_job_manager.States.Laws.{same_text_iff}
use pyqt_lsf_job_manager.Store.Effects.{Result, Store, and_then, err, ok, pure}
use pyqt_lsf_job_manager.Store.Fields.{Field, is_key_field}
use pyqt_lsf_job_manager.Store.Update.{next_record, transition}
use pyqt_lsf_job_manager.Store.Consistent.{IsConsistent, Keeps}
use pyqt_lsf_job_manager.Store.Invariant.{>>=-Keeps, transition-Keeps}
use pyqt_lsf_job_manager.Store.Writes.{record_at, transition-refuses}
use pyqt_lsf_job_manager.Store.Untouched.{Stands}
use pyqt_lsf_job_manager.Killing.Marking.{
  exit_fields, exit_record, mark_one, mark_record, mark_unless, same_job,
}
use pyqt_lsf_job_manager.Submitting.Records.{is_record_gone}
use mathlib.Core.Path.{subst₂}

-- Another job is not marked.
pub mark_one-Stands :
    (id key : String) (optimistic : Bool) (x : JobRecord) (now : Time) (r : JobRecord)
    → same_job x r ≡ false
    → Keeps (Stands id key r) (mark_one optimistic x now)
unfolding mark_one
mark_one-Stands id key optimistic x now r h =
    >>=-Keeps (Stands id key r) (if optimistic then exit_record x now else pure none)
      (λ new. mark_unless new x now) (exits optimistic) marks
  where
    exits : (b : Bool) → Keeps (Stands id key r) (if b then exit_record x now else pure none)
    exits true =
        transition-Stands id key x.jobset_id x.job_key (some JobState.exit)
          (λ cur. same_job x cur && is_on_lsf cur.state) exit_fields now r refl
          (λ _ _. ground (arith, h))
    exits false = λ s p. p

    marks : (o : Option JobRecord) → Keeps (Stands id key r) (mark_unless o x now)
    marks none =
        transition-Stands id key x.jobset_id x.job_key none (same_job x) (Field.killed true ∷ [])
          now r refl (λ _ _. h)
    marks (some new) = λ s p. p

-- What the mark makes of a record of the job.
abbrev pub marked_record : Bool → JobRecord → Time → JobRecord
marked_record optimistic r now =
    if optimistic && is_on_lsf r.state
    then next_record r r.revision now JobState.exit exit_fields
    else next_record r r.revision now r.state (Field.killed true ∷ [])

pub same_job-keys :
    (id key : String) (x r : JobRecord) (s : Store)
    → Stands id key r s
    → same_job x r ≡ true
    → (x.jobset_id ≡ id) × (x.job_key ≡ key)
unfolding same_job
same_job-keys id key x r s (c, e) h =
    let (p, q) = c.keyed id key r e in
    (
      sym ((same_text_iff r.jobset_id x.jobset_id).0 (ground (arith, h))) ∙ p,
      sym ((same_text_iff r.job_key x.job_key).0 (ground (arith, h))) ∙ q,
    )

-- The job is marked.
pub mark_one-marks :
    (id key : String) (optimistic : Bool) (x : JobRecord) (now : Time) (r : JobRecord) (s : Store)
    → Stands id key r s
    → same_job x r ≡ true
    → (t : Store) × (mark_one optimistic x now s ≡ (ok (some (marked_record optimistic r now)), t))
      × Stands id key (marked_record optimistic r now) t
unfolding mark_one
mark_one-marks id key optimistic x now r s (c, e) h =
    let (p, q) = same_job-keys id key x r s (c, e) h in
    let alone =
      transition-renews id key x.jobset_id x.job_key none (same_job x) (Field.killed true ∷ []) now
        s r p q (c, e) refl h in
    go p q alone optimistic (Bool-cases (is_on_lsf r.state))
  where
    then_mark : Result (Option JobRecord) × Store → Result (Option JobRecord) × Store
    then_mark a = and_then a.0 (λ o. mark_unless o x now) a.1

    go :
        x.jobset_id ≡ id
        → x.job_key ≡ key
        → ((t : Store) × (mark_record x now s
              ≡ (ok (some (next_record r r.revision now r.state (Field.killed true ∷ []))), t))
            × Stands id key (next_record r r.revision now r.state (Field.killed true ∷ [])) t)
        → (b : Bool) → (is_on_lsf r.state ≡ true) ⊎ (is_on_lsf r.state ≡ false)
        → (t : Store) × (mark_one b x now s ≡ (ok (some (marked_record b r now)), t))
          × Stands id key (marked_record b r now) t
    go p q alone false l = alone
    go p q (t, y, z) true (inr l) =
        let e' : record_at x.jobset_id x.job_key s ≡ some r =
          subst₂ (λ a l. record_at a l s ≡ some r) (sym p) (sym q) e in
        let (_, _, stays) =
          transition-refuses x.jobset_id x.job_key (some JobState.exit)
            (some (λ cur. same_job x cur && is_on_lsf cur.state)) exit_fields now s in
        rw l (t, ap then_mark (stays r refl e' (ground (arith, l))) ∙ y, z)
    go p q alone true (inl l) =
        let (t, y, z) =
          transition-renews id key x.jobset_id x.job_key (some JobState.exit)
            (λ cur. same_job x cur && is_on_lsf cur.state) exit_fields now s r p q (c, e) refl
            (ground (arith, h, l)) in
        rw l (t, ap then_mark y, z)

abbrev pub IsPassed : Result (Option JobRecord) → Type 0
IsPassed (ok o) = Unit
IsPassed (err e) = is_record_gone e ≡ true

pub transition-IsPassed :
    (i k : String) (st : Option JobState) (g : JobRecord → Bool) (fs : List Field) (now : Time)
    (s : Store)
    → IsConsistent s
    → any is_key_field fs ≡ false
    → IsPassed (transition i k st (some g) fs now s).0
transition-IsPassed i k st g fs now s c f = elim (transition-returns i k st g fs now s c f) [
  | inl (o, e) ↦ subst IsPassed (sym e) tt
  | inr e ↦ subst IsPassed (sym e) refl
]

pub mark_one-IsPassed :
    (optimistic : Bool) (x : JobRecord) (now : Time) (s : Store)
    → IsConsistent s
    → IsPassed (mark_one optimistic x now s).0
unfolding mark_one
mark_one-IsPassed optimistic x now s c = start optimistic
  where
    marks :
        (o : Result (Option JobRecord)) (t : Store)
        → IsConsistent t
        → IsPassed o
        → IsPassed (and_then o (λ new. mark_unless new x now) t).0
    marks (ok none) t k p =
        transition-IsPassed x.jobset_id x.job_key none (same_job x) (Field.killed true ∷ []) now t k
          refl
    marks (ok (some new)) t k p = tt
    marks (err e) t k p = p

    start : (b : Bool) → IsPassed (mark_one b x now s).0
    start true =
        marks (exit_record x now s).0 (exit_record x now s).1
          (transition-Keeps x.jobset_id x.job_key (some JobState.exit)
            (some (λ cur. same_job x cur && is_on_lsf cur.state)) exit_fields now s c)
          (transition-IsPassed x.jobset_id x.job_key (some JobState.exit)
            (λ cur. same_job x cur && is_on_lsf cur.state) exit_fields now s c refl)
    start false = marks (ok none) s c tt

pub mark_one-Keeps :
    (optimistic : Bool) (x : JobRecord) (now : Time)
    → Keeps IsConsistent (mark_one optimistic x now)
unfolding mark_one
mark_one-Keeps optimistic x now =
    >>=-Keeps IsConsistent (if optimistic then exit_record x now else pure none)
      (λ new. mark_unless new x now) (exits optimistic) marks
  where
    exits : (b : Bool) → Keeps IsConsistent (if b then exit_record x now else pure none)
    exits true =
        transition-Keeps x.jobset_id x.job_key (some JobState.exit)
          (some (λ cur. same_job x cur && is_on_lsf cur.state)) exit_fields now
    exits false = λ s p. p

    marks : (o : Option JobRecord) → Keeps IsConsistent (mark_unless o x now)
    marks none =
        transition-Keeps x.jobset_id x.job_key none (some (same_job x)) (Field.killed true ∷ []) now
    marks (some new) = λ s p. p
