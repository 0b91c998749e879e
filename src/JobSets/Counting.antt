-- ===== src/JobSets/Counting.antt =====
-- The intended count of a job set after its records change (lsfmgr/jobset_core.py,
-- _sync_intended_count).
use pyqt_lsf_job_manager.Base.{
  Bool, Bool-cases, Option-cases, String, ap, arith, false, get, get-put, has, inl, inr, length,
  not, put, refl, some, string_key, true, ◌==◌, ◌≡◌,
}
use pyqt_lsf_job_manager.States.{JobSetRecord}
use pyqt_lsf_job_manager.Store.Effects.{Store, ok}
use pyqt_lsf_job_manager.Store.Memory.{count_jobs, get_jobset, jobs_of, update_jobset}
use pyqt_lsf_job_manager.Store.Invariant.{
  Reading, Reading-Keeps, get_jobset-Reading, then_pure-Keeps,
}
use pyqt_lsf_job_manager.Store.Sound.{update_jobset-Keeps}
use pyqt_lsf_job_manager.Store.Consistent.{IsConsistent, Keeps}
use pyqt_lsf_job_manager.JobSets.Manager.{sync_intended_count, with_count, write_count}

-- The job set stands under its own id, and intends as many jobs as it has records.
pub record IsSynced (id : String) (s : Store) : Type 0 where
  pub jobset : JobSetRecord
  pub stands : get id s.jobsets ≡ some jobset
  pub named : jobset.jobset_id ≡ id
  pub exact : jobset.intended_count ≡ length (jobs_of id s)

count_jobs-Reading : (id : String) → Reading (count_jobs id)
unfolding count_jobs get_jobset
count_jobs-Reading id s = ground arith

pub write_count-Keeps : (b : Bool) (js : JobSetRecord) → Keeps IsConsistent (write_count b js)
write_count-Keeps true js = then_pure-Keeps (update_jobset js) _ (update_jobset-Keeps js)
write_count-Keeps false js = λ s c. c

pub sync_intended_count-IsSynced :
    (id : String) (s : Store) (js : JobSetRecord)
    → has id s.jobs ≡ true
    → get id s.jobsets ≡ some js
    → js.jobset_id ≡ id
    → (t : Store) × (sync_intended_count id s ≡ (ok tt, t)) × (t.jobs ≡ s.jobs) × IsSynced id t
unfolding sync_intended_count count_jobs get_jobset update_jobset
sync_intended_count-IsSynced id s js p e n = elim (Option-cases (get id s.jobs)) [
  | inl q ↦ absurd (ground arith)
  | inr (jobs, q) ↦ elim (Bool-cases (js.intended_count == length jobs)) [
    | inl b ↦
        (s, ground arith, refl, record { jobset = js; stands = e; named = n; exact = ground arith })
    | inr b ↦
        let js' = with_count js (length jobs) in
        (
          record s { jobsets = put js.jobset_id js' s.jobsets },
          ground (arith, ap (λ i. has i s.jobsets) n),
          refl,
          record {
            jobset = js';
            stands = rw n (ground (arith, get-put id js' s.jobsets id));
            named = n;
            exact = ground arith;
          },
        )
  ]
]

pub sync_intended_count-Keeps : (id : String) → Keeps IsConsistent (sync_intended_count id)
unfolding sync_intended_count
sync_intended_count-Keeps id = Reading-Keeps (get_jobset id) _ (get_jobset-Reading id) λ js.
    Reading-Keeps (count_jobs id) _ (count_jobs-Reading id)
      λ n. write_count-Keeps (not (js.intended_count == n)) (with_count js n)
