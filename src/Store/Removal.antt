-- ===== src/Store/Removal.antt =====
-- The removal of a record from the store of lsfmgr/store/memory.py, and the invariant of the
-- store.
use pyqt_lsf_job_manager.Base.{
  String, ◌≡◌, true, some, Dict, get, put, pop, has, get-put, get-pop, pop-IsUnique, IsUnique,
  string_key, String_discrete, ite, arith, ite_ind, ite_ind₂, Option-cases, inl, inr,
}
use pyqt_lsf_job_manager.States.{JobRecord}
use pyqt_lsf_job_manager.Store.Effects.{Store}
use pyqt_lsf_job_manager.Store.Records.{uncount, drop_rec}
use pyqt_lsf_job_manager.Store.Memory.{jobs_of}
use pyqt_lsf_job_manager.Store.Tally.{
  Reads, tally, uncounted, decrement-tally, decrement-size, uncounted-IsUnique, sum_counts, size,
}
use pyqt_lsf_job_manager.Store.Consistent.{
  counts_of, IsConsistent, Keeps, counts_of-uncount, counts_of-uncount_ne, uncount-jobs,
}

module _ (id job_key : String) (jobs : Dict String JobRecord) (s : Store)
    (found : get id s.jobs ≡ some jobs) where
  abbrev popped : Store
  popped = record s { jobs = put id (pop job_key jobs) s.jobs }

  abbrev removed : Store
  removed = uncount id (get job_key jobs) popped

  jobs_of-removed :
      (j : String) → jobs_of j removed ≡ ite (String_discrete id j) (pop job_key jobs) (jobs_of j s)
  jobs_of-removed j =
      ground
        (arith, uncount-jobs id (get job_key jobs) popped, get-put id (pop job_key jobs) s.jobs j)

  counts_of-removed :
      (j : String)
      → counts_of j removed
        ≡ ite (String_discrete id j) (uncounted (get job_key jobs) (counts_of id s)) (counts_of j s)
  counts_of-removed j = ground (
    arith,
    counts_of-uncount id (get job_key jobs) popped,
    counts_of-uncount_ne id j (get job_key jobs) popped,
  )

  jobs_of-found : jobs_of id s ≡ jobs
  jobs_of-found = ground arith

  removed-keyed :
      IsConsistent s
      → (j key : String) (q : JobRecord) → get key (jobs_of j removed) ≡ some q
      → (q.jobset_id ≡ j) × (q.job_key ≡ key)
  removed-keyed c j key q e =
      ground (arith, jobs_of-removed j, get-pop job_key jobs key, c.keyed j key q, jobs_of-found)

  removed-present :
      IsConsistent s → (j : String) → has j removed.jobsets ≡ true → has j removed.jobs ≡ true
  removed-present c j h = ground (
    arith,
    uncount-jobs id (get job_key jobs) popped,
    get-put id (pop job_key jobs) s.jobs j,
    c.present j,
  )

  pub removed-IsConsistent : IsConsistent s → IsConsistent removed
  removed-IsConsistent c =
      let only : IsUnique jobs = rw jobs_of-found at (c.unique id) in
      record {
        counted = λ j.
            rw (counts_of-removed j, jobs_of-removed j)
              (ite_ind₂ (λ c' m. Reads c' (tally m)) (String_discrete id j)
                (λ _.
                  decrement-tally jobs (counts_of id s) job_key only
                    (rw jobs_of-found at (c.counted id)))
                (λ _. c.counted j));
        sized = λ j.
            rw (counts_of-removed j, jobs_of-removed j)
              (ite_ind₂ (λ c' m. sum_counts c' ≡ size m) (String_discrete id j)
                (λ _.
                  decrement-size jobs (counts_of id s) job_key only
                    (rw jobs_of-found at (c.counted id)) (c.counts_unique id)
                    (rw jobs_of-found at (c.sized id)))
                (λ _. c.sized j));
        counts_unique = λ j. rw (counts_of-removed j) (
            ite_ind IsUnique (String_discrete id j)
              (λ _. uncounted-IsUnique (get job_key jobs) _ (c.counts_unique id))
              (λ _. c.counts_unique j));
        unique = λ j. rw (jobs_of-removed j) (
            ite_ind IsUnique (String_discrete id j) (λ _. pop-IsUnique job_key jobs only)
              (λ _. c.unique j));
        present = removed-present c;
        keyed = removed-keyed c;
      }

pub drop_rec-IsConsistent : (id job_key : String) → Keeps IsConsistent (drop_rec id job_key)
unfolding drop_rec
drop_rec-IsConsistent id job_key s c = elim (Option-cases (get id s.jobs)) [
  | inl e ↦ rw (e, drop_rec) c
  | inr (jobs, e) ↦ rw (e, drop_rec) (removed-IsConsistent id job_key jobs s e c)
]
