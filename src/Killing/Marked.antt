-- ===== src/Killing/Marked.antt =====
-- The marks of a kill and the records that they reach (lsfmgr/killer.py, _mark_killed).
use mathlib.Core.Path.{subst₂}
use pyqt_lsf_job_manager.Base.{
  Bool, Bool-cases, List, Option, String, [], ap, arith, false, filter, if_ind, inl, inr, length,
  pair_key, refl, some, string_key, subst, suc, sym, true, zero, ℕ, ◌&&◌, ◌∙◌, ◌∷◌, ◌≡◌, ◌⊎◌,
}
use pyqt_lsf_job_manager.States.{JobRecord, Time, is_on_lsf}
use pyqt_lsf_job_manager.Killing.Marking.{
  add_changed, after_mark, is_killed, mark_all, mark_killed, mark_one, same_job,
}
use pyqt_lsf_job_manager.Killing.MarkedOne.{
  IsPassed, mark_one-Stands, mark_one-IsPassed, mark_one-marks, marked_record,
}
use pyqt_lsf_job_manager.Store.Untouched.{Stands}
use pyqt_lsf_job_manager.Store.Writes.{record_at}
use pyqt_lsf_job_manager.Store.Effects.{M, Result, Store, and_then, err, ok, pure}
use pyqt_lsf_job_manager.Store.Fields.{replace}
use pyqt_lsf_job_manager.Store.Consistent.{IsConsistent}

after_mark-state :
    (optimistic : Bool) (o : Result (Option JobRecord)) (rest : M (List JobRecord)) (s : Store)
    → IsPassed o
    → (after_mark optimistic o rest s).1 ≡ (rest s).1
after_mark-state optimistic (ok o) rest s p = go (rest s).0
  where
    go :
        (r : Result (List JobRecord))
        → (and_then r (λ out. pure (add_changed optimistic o out)) (rest s).1).1 ≡ (rest s).1
    go (ok out) = refl
    go (err e) = refl
after_mark-state optimistic (err e) rest s p = rw p refl

-- In a consistent store, every record of the list has its turn.
mark_all-next :
    (optimistic : Bool) (x : JobRecord) (xs : List JobRecord) (now : Time) (s : Store)
    → IsConsistent s
    → (mark_all optimistic (x ∷ xs) now s).1
      ≡ (mark_all optimistic xs now (mark_one optimistic x now s).1).1
unfolding mark_all
mark_all-next optimistic x xs now s c =
    after_mark-state optimistic (mark_one optimistic x now s).0 (mark_all optimistic xs now)
      (mark_one optimistic x now s).1 (mark_one-IsPassed optimistic x now s c)

same_job-marked_record :
    (optimistic : Bool) (x r : JobRecord) (now : Time)
    → same_job x (marked_record optimistic r now) ≡ same_job x r
unfolding same_job replace
same_job-marked_record optimistic x r now =
    if_ind (λ y. same_job x y ≡ same_job x r) (optimistic && is_on_lsf r.state) (λ _. refl)
      (λ _. refl)

-- The records of the list that are the job.
abbrev pub hits : JobRecord → List JobRecord → ℕ
hits r xs = length (filter (λ x. same_job x r) xs)

-- The record after a number of marks.
abbrev pub marked_times : Bool → Time → ℕ → JobRecord → JobRecord
marked_times optimistic now zero r = r
marked_times optimistic now (suc n) r =
    marked_times optimistic now n (marked_record optimistic r now)

hits-marked_record :
    (optimistic : Bool) (r : JobRecord) (now : Time) (xs : List JobRecord)
    → hits (marked_record optimistic r now) xs ≡ hits r xs
hits-marked_record optimistic r now [] = refl
hits-marked_record optimistic r now (x ∷ xs) =
    let e = same_job-marked_record optimistic x r now in
    let k = hits-marked_record optimistic r now xs in
    elim (Bool-cases (same_job x r)) [
      | inl h ↦ rw (filter, h, e ∙ h) (ap suc k)
      | inr h ↦ rw (filter, h, e ∙ h) k
    ]

mark_all-marks :
    (id key : String) (optimistic : Bool) (xs : List JobRecord) (now : Time) (r : JobRecord)
    (s : Store)
    → Stands id key r s
    → Stands id key (marked_times optimistic now (hits r xs) r) (mark_all optimistic xs now s).1
unfolding mark_all
mark_all-marks id key optimistic [] now r s p = p
mark_all-marks id key optimistic (x ∷ xs) now r s p =
    subst (Stands id key (marked_times optimistic now (hits r (x ∷ xs)) r))
      (sym (mark_all-next optimistic x xs now s p.0))
      (go (Bool-cases (same_job x r)) (λ r' t. mark_all-marks id key optimistic xs now r' t))
  where
    go :
        (same_job x r ≡ true) ⊎ (same_job x r ≡ false)
        → ((r' : JobRecord) (t : Store)
            → Stands id key r' t
            → Stands id key
                (marked_times optimistic now (hits r' xs) r')
                (mark_all optimistic xs now t).1)
        → Stands id key
            (marked_times optimistic now (hits r (x ∷ xs)) r)
            (mark_all optimistic xs now (mark_one optimistic x now s).1).1
    go (inl h) ih =
        let (t, e, k) = mark_one-marks id key optimistic x now r s p h in
        let n = hits-marked_record optimistic r now xs in
        let new = marked_record optimistic r now in
        rw (filter, h)
          (subst₂
            (λ u m.
              Stands id key (marked_times optimistic now m new) (mark_all optimistic xs now u).1)
            (sym (ap (λ a. a.1) e)) n (ih new t k))
    go (inr h) ih =
        rw (filter, h)
          (ih r (mark_one optimistic x now s).1 (mark_one-Stands id key optimistic x now r h s p))

filter-none :
    (p : JobRecord → Bool) (xs : List JobRecord)
    → ((x : JobRecord) → p x ≡ false)
    → filter p xs ≡ []
filter-none p [] h = refl
filter-none p (x ∷ xs) h = rw (filter, h x) (filter-none p xs h)

-- The records that a kill takes for ended by it.
abbrev pub killed_among :
    (JobRecord → String) → List String → List (String × String) → List JobRecord → List JobRecord
killed_among rec_target accepted alive_keys = filter (is_killed rec_target accepted alive_keys)

mark_killed-mark_all :
    (optimistic : Bool) (recs : List JobRecord) (rec_target : JobRecord → String)
    (accepted : List String) (alive_keys : List (String × String)) (now : Time) (s : Store)
    → mark_killed optimistic (some recs) rec_target accepted alive_keys now s
      ≡ mark_all optimistic (killed_among rec_target accepted alive_keys recs) now s
unfolding mark_killed mark_all
mark_killed-mark_all optimistic recs rec_target [] alive_keys now s = sym (
    ap (λ l. mark_all optimistic l now s)
      (filter-none (is_killed rec_target [] alive_keys) recs (λ x. ground arith)))
mark_killed-mark_all optimistic recs rec_target (t ∷ accepted) alive_keys now s = refl

-- The marks after a kill, in a consistent store that may have changed since the records were read: a
-- record is marked once for each of the records that count as killed and are the same execution with
-- the same id and index, and so it is left as it is if there are none. A mark sets the flag, and the
-- state EXIT with the reason KILLED if the policy is optimistic and the record is still on LSF.
pub mark_killed-marks :
    (optimistic : Bool) (recs : List JobRecord) (rec_target : JobRecord → String)
    (accepted : List String) (alive_keys : List (String × String)) (now : Time) (id key : String)
    (s : Store) (r : JobRecord)
    → IsConsistent s
    → record_at id key s ≡ some r
    → let chosen = killed_among rec_target accepted alive_keys recs in
      record_at id key (mark_killed optimistic (some recs) rec_target accepted alive_keys now s).1
      ≡ some (marked_times optimistic now (hits r chosen) r)
mark_killed-marks optimistic recs rec_target accepted alive_keys now id key s r c e =
    ap (λ a. record_at id key a.1)
      (mark_killed-mark_all optimistic recs rec_target accepted alive_keys now s)
    ∙ (mark_all-marks id key optimistic (killed_among rec_target accepted alive_keys recs) now r s
        (c, e)).1
