-- ===== src/Store/Writes.antt =====
-- The transition of one record (lsfmgr/store/memory.py, transition), as a compare-and-set.
use pyqt_lsf_job_manager.Base.{
  String, ◌+◌, ◌≡◌, sym, refl, true, false, Option, none, some, List, [], ◌∷◌, Dict, get, get-put,
  any, string_key, String_discrete, or_default, ite, arith, Option-cases, inl, inr,
}
use mathlib.Core.Path.{subst₂}
use pyqt_lsf_job_manager.States.{JobState, JobRecord, Time}
use pyqt_lsf_job_manager.Store.Effects.{Store, ok, err, value_error, job_not_found}
use pyqt_lsf_job_manager.Store.Fields.{Field, set_field, replace, is_key_field}
use pyqt_lsf_job_manager.Store.Records.{put_rec}
use pyqt_lsf_job_manager.Store.Memory.{jobs_of, get_job}
use pyqt_lsf_job_manager.Store.Update.{next_record, replace_rec, Guard, passes, transition}
use pyqt_lsf_job_manager.Store.Consistent.{IsConsistent, jobs_of-written, written}

-- The record under a key of a job set.
abbrev pub record_at : String → String → Store → Option JobRecord
record_at id key s = get key (jobs_of id s)

-- One record is new, and every other is the old one.
abbrev pub OnlyWrites : String → String → JobRecord → Store → Store → Type 0
OnlyWrites id key new s t =
    (i k : String)
    → record_at i k t
      ≡ ite (String_discrete id i) (ite (String_discrete key k) (some new) (record_at i k s))
          (record_at i k s)

set_field-keys :
    (r : JobRecord) (f : Field)
    → is_key_field f ≡ false
    → ((set_field r f).jobset_id ≡ r.jobset_id) × ((set_field r f).job_key ≡ r.job_key)
set_field-keys r f h = ground arith

pub replace-keys :
    (r : JobRecord) (fs : List Field)
    → any is_key_field fs ≡ false
    → ((replace r fs).jobset_id ≡ r.jobset_id) × ((replace r fs).job_key ≡ r.job_key)
unfolding replace
replace-keys r [] h = (refl, refl)
replace-keys r (f ∷ fs) h = ground (arith, set_field-keys r f, replace-keys (set_field r f) fs)

pub found_jobs :
    (id key : String) (s : Store) {r : JobRecord}
    → record_at id key s ≡ some r
    → (jobs : Dict String JobRecord) × (get id s.jobs ≡ some jobs) × (get key jobs ≡ some r)
unfolding get
found_jobs id key s h = elim (Option-cases (get id s.jobs)) [
  | inl e ↦ absurd (cc (rw e at h))
  | inr (jobs, e) ↦ (jobs, e, rw e at h)
]

pub written-writes :
    (r : JobRecord) (jobs : Dict String JobRecord) (s : Store)
    (e : get r.jobset_id s.jobs ≡ some jobs)
    → OnlyWrites r.jobset_id r.job_key r s (written r jobs s e)
written-writes r jobs s e i k =
    ground (arith, jobs_of-written r jobs s e i, get-put r.job_key r jobs k)

pub put_rec-eq :
    (r : JobRecord) (jobs : Dict String JobRecord) (s : Store)
    (e : get r.jobset_id s.jobs ≡ some jobs)
    → put_rec r s ≡ (ok tt, written r jobs s e)
unfolding put_rec
put_rec-eq r jobs s e = rw (e, put_rec)

replace_rec-eq :
    (old : JobRecord) (now : Time) (st : JobState) (fs : List Field) (s t : Store)
    (jobs : Dict String JobRecord)
    → get old.jobset_id s.jobs ≡ some jobs
    → get old.job_key jobs ≡ some old
    → put_rec (next_record old old.revision now st fs) s ≡ (ok tt, t)
    → replace_rec old now st fs s ≡ (ok (next_record old old.revision now st fs), t)
unfolding replace_rec
replace_rec-eq old now st fs s t jobs ej er ep = ground arith

-- A write of the record that stands under the keys.
pub replace_rec-writes :
    (old : JobRecord) (now : Time) (st : JobState) (fs : List Field) (s : Store)
    → record_at old.jobset_id old.job_key s ≡ some old
    → any is_key_field fs ≡ false
    → let new = next_record old old.revision now st fs in
      (t : Store) × (replace_rec old now st fs s ≡ (ok new, t))
      × OnlyWrites old.jobset_id old.job_key new s t
replace_rec-writes old now st fs s h k =
    let new = next_record old old.revision now st fs in
    let (jobs, ej, er) = found_jobs old.jobset_id old.job_key s h in
    let (kj, kk) = replace-keys old fs k in
    let e : get new.jobset_id s.jobs ≡ some jobs = rw kj ej in
    let w : OnlyWrites old.jobset_id old.job_key new s (written new jobs s e) =
      subst₂ (λ a b. OnlyWrites a b new s (written new jobs s e)) kj kk
        (written-writes new jobs s e) in
    (written new jobs s e, replace_rec-eq old now st fs s _ jobs ej er (put_rec-eq new jobs s e), w)

-- A transition that the guard lets through, in a consistent store, with no key among its fields: it
-- returns the record with the fields, the state and the next revision, writes that record, and
-- leaves every other one as it was.
pub transition-writes :
    (id key : String) (st : Option JobState) (g : Guard) (fs : List Field) (now : Time) (s : Store)
    (old : JobRecord)
    → IsConsistent s
    → record_at id key s ≡ some old
    → any is_key_field fs ≡ false
    → passes g old ≡ true
    → let new = next_record old old.revision now (or_default old.state st) fs in
      (t : Store) × (transition id key st g fs now s ≡ (ok (some new), t))
      × (new.revision ≡ old.revision + 1)
      × OnlyWrites id key new s t
unfolding transition get_job
transition-writes id key st g fs now s old c h k p =
    let (ki, kk) = c.keyed id key old h in
    let (t, e, w) =
      replace_rec-writes old now (or_default old.state st) fs s
        (subst₂ (λ a b. record_at a b s ≡ some old) (sym ki) (sym kk) h) k in
    (
      t,
      ground arith,
      refl,
      subst₂
          (λ a b.
            OnlyWrites a b (next_record old old.revision now (or_default old.state st) fs) s t)
          ki kk w,
    )

-- Every other transition leaves the store as it is: a record that the guard refuses gives None, a
-- missing one is a JobNotFoundError, and a key among the fields is a ValueError before anything.
pub transition-refuses :
    (id key : String) (st : Option JobState) (g : Guard) (fs : List Field) (now : Time) (s : Store)
    → (any is_key_field fs ≡ true → transition id key st g fs now s ≡ (err value_error, s))
      × (any is_key_field fs ≡ false
          → record_at id key s ≡ none
          → transition id key st g fs now s ≡ (err (job_not_found id key), s))
      × ((old : JobRecord)
          → any is_key_field fs ≡ false
          → record_at id key s ≡ some old
          → passes g old ≡ false
          → transition id key st g fs now s ≡ (ok none, s))
unfolding transition get_job
transition-refuses id key st g fs now s =
    (λ k. ground arith, λ k h. ground arith, λ old k h p. ground arith)
