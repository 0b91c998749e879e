-- ===== src/JobSets/Deletions.antt =====
-- What a deletion of records leaves of the store (lsfmgr/store/memory.py, store_delete_jobs).
use pyqt_lsf_job_manager.Base.{
  Bool-cases, List, Option, Option-cases, String, [], ap, arith, get, get-pop, get-put, has,
  if◌then◌else◌, inl, inr, none, pop, put, refl, string_key, ◌∙◌, ◌∷◌, ◌≡◌,
}
use pyqt_lsf_job_manager.States.{JobRecord}
use pyqt_lsf_job_manager.States.Laws.{same_text_iff}
use pyqt_lsf_job_manager.Store.Effects.{Store, ok}
use pyqt_lsf_job_manager.Store.Records.{drop_rec, uncount}
use pyqt_lsf_job_manager.Store.Memory.{
  cons_some, delete_present, drop_present, jobs_of, store_delete_jobs,
}
use pyqt_lsf_job_manager.Store.Consistent.{uncount-jobs}
use pyqt_lsf_job_manager.Store.Writes.{record_at}
use pyqt_lsf_job_manager.JobSets.Choices.{is_member}

-- The records under the keys are gone, every other one of the job set is as it was, and so is the list
-- of the job sets.
pub record IsWithout (id : String) (ks : List String) (s t : Store) : Type 0 where
  pub records :
      (k : String) → record_at id k t ≡ (if is_member k ks then none else record_at id k s)
  pub jobsets : t.jobsets ≡ s.jobsets

drop_rec-IsWithout :
    (id key : String) (s : Store)
    → (o : Option JobRecord) × (t : Store) × (drop_rec id key s ≡ (ok o, t))
      × IsWithout id (key ∷ []) s t
unfolding drop_rec get
drop_rec-IsWithout id key s = elim (Option-cases (get id s.jobs)) [
  | inl e ↦ (none, s, ground arith, record { records = λ k. ground arith; jobsets = refl })
  | inr (jobs, e) ↦
      let u = record s { jobs = put id (pop key jobs) s.jobs } in
      (
        get key jobs,
        uncount id (get key jobs) u,
        ground arith,
        record {
          records = λ k. ground (
            arith,
            uncount-jobs id (get key jobs) u,
            get-put id (pop key jobs) s.jobs id,
            get-pop key jobs k,
            (same_text_iff k key).0,
            (same_text_iff k key).1,
          );
          jobsets = (uncount-jobs id (get key jobs) u).1;
        },
      )
]

drop_present-IsWithout :
    (id key : String) (s : Store)
    → (o : Option JobRecord) × (t : Store) × (drop_present id key s ≡ (ok o, t))
      × IsWithout id (key ∷ []) s t
drop_present-IsWithout id key s = elim (Bool-cases (has key (jobs_of id s))) [
  | inl e ↦ rw e (drop_rec-IsWithout id key s)
  | inr e ↦ rw e (
    none,
    s,
    refl,
    record {
      records = λ k. ground (arith, (same_text_iff k key).0, ap (λ j. record_at id j s));
      jobsets = refl;
    },
  )
]

delete_present-IsWithout :
    (id : String) (ks : List String) (s : Store)
    → (out : List JobRecord) × (t : Store) × (delete_present id ks s ≡ (ok out, t))
      × IsWithout id ks s t
unfolding delete_present
delete_present-IsWithout id [] s = ([], s, refl, record { records = λ k. refl; jobsets = refl })
delete_present-IsWithout id (x ∷ ks) s =
    let (o, u, p, w) = drop_present-IsWithout id x s in
    let (out, t, q, v) = delete_present-IsWithout id ks u in
    (
      cons_some o out,
      t,
      ground arith,
      record {
        records = λ k. ground (arith, w.records k, v.records k);
        jobsets = v.jobsets ∙ w.jobsets;
      },
    )

pub store_delete_jobs-IsWithout :
    (id : String) (ks : List String) (s : Store)
    → (out : List JobRecord) × (t : Store) × (store_delete_jobs id ks s ≡ (ok out, t))
      × IsWithout id ks s t
unfolding store_delete_jobs get
store_delete_jobs-IsWithout id ks s = elim (Bool-cases (has id s.jobs)) [
  | inl e ↦ rw e (delete_present-IsWithout id ks s)
  | inr e ↦ rw e ([], s, refl, record { records = λ k. ground arith; jobsets = refl })
]
