-- ===== src/Store/Sound.antt =====
-- Sequences of calls of the store of lsfmgr/store/memory.py: what they keep of the store.
use pyqt_lsf_job_manager.Base.{
  String, ◌≡◌, refl, true, none, List, [], ◌∷◌, get, pop, has, get-put, get-pop, total, string_key,
  String_discrete, or_default, ite, arith, IsUnique, ite_ind, ite_ind₂,
}
use pyqt_lsf_job_manager.States.{Time, JobRecord, JobSetRecord}
use pyqt_lsf_job_manager.Store.Effects.{Store}
use pyqt_lsf_job_manager.Store.Memory.{
  jobs_of, store_insert_jobset, update_jobset, store_delete_jobset, stamp_created,
}
use pyqt_lsf_job_manager.Store.Tally.{Reads, tally, sum_counts, size}
use pyqt_lsf_job_manager.Store.Consistent.{IsConsistent, Keeps, counts_of}
use pyqt_lsf_job_manager.Store.Calls.{
  Call, insert_jobset, put_jobset, delete_jobset, add_job, add_jobs, delete_job, delete_jobs,
  write_job, transit, transit_many, after, after_all, empty,
}
use pyqt_lsf_job_manager.Store.Invariant.{
  store_add_job-Keeps, store_add_jobs-Keeps, store_delete_job-Keeps, store_delete_jobs-Keeps,
  update_job-Keeps, transition-Keeps, transition_many-Keeps,
}

-- A store with the records and the counts of a consistent one.
same-IsConsistent :
    (s t : Store)
    → IsConsistent s
    → ((id : String) → jobs_of id t ≡ jobs_of id s)
    → ((id : String) → counts_of id t ≡ counts_of id s)
    → ((id : String) → has id t.jobsets ≡ true → has id t.jobs ≡ true)
    → IsConsistent t
same-IsConsistent s t c ej ec p = record {
  counted = λ id. rw (ej id, ec id) (c.counted id);
  sized = λ id. rw (ej id, ec id) (c.sized id);
  counts_unique = λ id. rw (ec id) (c.counts_unique id);
  unique = λ id. rw (ej id) (c.unique id);
  present = p;
  keyed = λ id key q e. c.keyed id key q (rw (ej id) at e);
}

pub store_insert_jobset-Keeps :
    (r : JobSetRecord) (now : Time) → Keeps IsConsistent (store_insert_jobset r now)
unfolding store_insert_jobset
store_insert_jobset-Keeps r now s c =
    same-IsConsistent s _ c
      (λ id. ground (arith, get-put r.jobset_id (jobs_of r.jobset_id s) s.jobs id))
      (λ id. ground (arith, get-put r.jobset_id (counts_of r.jobset_id s) s.counts id))
      λ id h. ground (
        arith,
        get-put r.jobset_id (stamp_created r now) s.jobsets id,
        get-put r.jobset_id (jobs_of r.jobset_id s) s.jobs id,
        c.present id,
      )

pub update_jobset-Keeps : (r : JobSetRecord) → Keeps IsConsistent (update_jobset r)
unfolding update_jobset
update_jobset-Keeps r s c =
    same-IsConsistent s _ c (λ id. ground arith) (λ id. ground arith)
      λ id h.
        ground (arith, get-put r.jobset_id r s.jobsets id, c.present id, c.present r.jobset_id)

jobs_of-popped :
    (id : String) (s : Store) (j : String)
    → or_default [] (get j (pop id s.jobs)) ≡ ite (String_discrete id j) [] (jobs_of j s)
jobs_of-popped id s j = ground (arith, get-pop id s.jobs j)

counts_of-popped :
    (id : String) (s : Store) (j : String)
    → or_default [] (get j (pop id s.counts)) ≡ ite (String_discrete id j) [] (counts_of j s)
counts_of-popped id s j = ground (arith, get-pop id s.counts j)

Reads-nil : Reads [] (tally [])
unfolding get total
Reads-nil key = refl

sum_counts-nil : sum_counts [] ≡ size []
unfolding total
sum_counts-nil = refl

pub store_delete_jobset-Keeps : (id : String) → Keeps IsConsistent (store_delete_jobset id)
unfolding store_delete_jobset
store_delete_jobset-Keeps id s c = record {
  counted = λ j.
      rw (jobs_of-popped id s j, counts_of-popped id s j)
        (ite_ind₂ (λ c' m. Reads c' (tally m)) (String_discrete id j) (λ _. Reads-nil)
          (λ _. c.counted j));
  sized = λ j.
      rw (jobs_of-popped id s j, counts_of-popped id s j)
        (ite_ind₂ (λ c' m. sum_counts c' ≡ size m) (String_discrete id j) (λ _. sum_counts-nil)
          (λ _. c.sized j));
  counts_unique = λ j.
      rw (counts_of-popped id s j)
        (ite_ind IsUnique (String_discrete id j) (λ _. tt) (λ _. c.counts_unique j));
  unique = λ j.
      rw (jobs_of-popped id s j)
        (ite_ind IsUnique (String_discrete id j) (λ _. tt) (λ _. c.unique j));
  present = λ j h. ground (arith, get-pop id s.jobsets j, get-pop id s.jobs j, c.present j);
  keyed = λ j key q e. ground (arith, jobs_of-popped id s j, c.keyed j key q, get-nil key);
}
  where
    get-nil : (key : String) → get {V = JobRecord} key [] ≡ none
    get-nil key = unfold get in refl

after-IsConsistent :
    (c : Call) (now : Time) (s : Store) → IsConsistent s → IsConsistent (after c now s)
unfolding after
after-IsConsistent (insert_jobset r) now = store_insert_jobset-Keeps r now
after-IsConsistent (put_jobset r) now = update_jobset-Keeps r
after-IsConsistent (delete_jobset id) now = store_delete_jobset-Keeps id
after-IsConsistent (add_job r) now = store_add_job-Keeps r now
after-IsConsistent (add_jobs rs) now = store_add_jobs-Keeps rs now
after-IsConsistent (delete_job id key) now = store_delete_job-Keeps id key
after-IsConsistent (delete_jobs id ks) now = store_delete_jobs-Keeps id ks
after-IsConsistent (write_job r) now = update_job-Keeps r now
after-IsConsistent (transit id key st g fs) now = transition-Keeps id key st g fs now
after-IsConsistent (transit_many id specs) now = transition_many-Keeps id specs now

-- Whatever calls are made of a consistent store, in whatever order, it stays consistent: for each job
-- set the incremental count of each state is the number of the records in that state, with no entry
-- for 0, no job key stands twice, each record stands under its own keys, and a listed job set has its
-- dict of records. The counts of a job set add up to the number of its records.
pub after_all-IsConsistent :
    (cs : List (Call × Time)) (s : Store) → IsConsistent s → IsConsistent (after_all cs s)
unfolding after_all
after_all-IsConsistent [] s c = c
after_all-IsConsistent ((c, now) ∷ cs) s h =
    after_all-IsConsistent cs (after c now s) (after-IsConsistent c now s h)

pub empty-IsConsistent : IsConsistent empty
unfolding empty get total
empty-IsConsistent = record {
  counted = λ id key. refl;
  sized = λ id. refl;
  counts_unique = λ id. tt;
  unique = λ id. tt;
  present = λ id h. cc;
  keyed = λ id key q e. absurd (cc);
}
