-- ===== src/Store/Memory.antt =====
-- The public methods of InMemoryStore (lsfmgr/store/memory.py).
use pyqt_lsf_job_manager.Base.{
  ℕ, String, Bool, true, not, ◌||◌, ◌&&◌, Option, none, some, List, [], ◌∷◌, Dict, get, put, pop,
  has, values, or_default, string_key, filter, any, length, if◌then◌else◌,
}
use pyqt_lsf_job_manager.States.{JobState, Time, JobRecord, JobSetRecord, same_text}
use pyqt_lsf_job_manager.Store.Effects.{
  Store, ok, err, jobset_not_found, job_not_found, value_error, key_error, M, ◌>>=◌, ◌>>◌, pure,
  require,
}
use pyqt_lsf_job_manager.Store.Records.{put_rec, drop_rec}

-- `setdefault(k, {})`
abbrev pub set_default :
    {V : Type 0} → String → Dict String (Dict String V) → Dict String (Dict String V)
set_default k m = put k (or_default [] (get k m)) m

abbrev pub stamp_created : JobSetRecord → Time → JobSetRecord
stamp_created r now = elim r.created_at [ none ↦ record r { created_at = some now } | some _ ↦ r ]

unfoldable pub store_insert_jobset : JobSetRecord → Time → M JobSetRecord
store_insert_jobset r now s =
    if has r.jobset_id s.jobsets
    then (err value_error, s)
    else let r' = stamp_created r now in
      (
        ok r',
        record {
          jobsets = put r.jobset_id r' s.jobsets;
          jobs = set_default r.jobset_id s.jobs;
          counts = set_default r.jobset_id s.counts;
        },
      )

abbrev pub exists : String → Store → Bool
exists jobset_id s = has jobset_id s.jobsets

unfoldable pub get_jobset : String → M JobSetRecord
get_jobset jobset_id s = elim (get jobset_id s.jobsets) [
  | none ↦ (err (jobset_not_found jobset_id), s)
  | some r ↦ (ok r, s)
]

unfoldable pub update_jobset : JobSetRecord → M JobSetRecord
update_jobset r s =
    if has r.jobset_id s.jobsets
    then (ok r, record s { jobsets = put r.jobset_id r s.jobsets })
    else (err (jobset_not_found r.jobset_id), s)

unfoldable pub store_delete_jobset : String → M (Unit {0})
store_delete_jobset jobset_id s = (
  ok tt,
  record {
    jobsets = pop jobset_id s.jobsets;
    jobs = pop jobset_id s.jobs;
    counts = pop jobset_id s.counts;
  },
)

unfoldable pub list_jobsets : Store → List JobSetRecord
list_jobsets s = values s.jobsets

abbrev pub stamp_updated : JobRecord → Time → JobRecord
stamp_updated r now = elim r.updated_at [ none ↦ record r { updated_at = some now } | some _ ↦ r ]

-- The records of a job set; a job set that is not there has none.
abbrev pub jobs_of : String → Store → Dict String JobRecord
jobs_of jobset_id s = or_default [] (get jobset_id s.jobs)

-- `self._jobs[jobset_id]`
abbrev pub index_jobs : String → M (Dict String JobRecord)
index_jobs jobset_id s = elim (get jobset_id s.jobs) [
  | none ↦ (err key_error, s)
  | some jobs ↦ (ok jobs, s)
]

unfoldable pub store_add_job : JobRecord → Time → M JobRecord
store_add_job r now = do
  _ ← get_jobset r.jobset_id
  jobs ← index_jobs r.jobset_id
  require (not (has r.job_key jobs)) value_error
  let r' = stamp_updated r now
  put_rec r'
  pure r'

-- `(jobset_id, job_key) in seen`
abbrev pub is_seen : JobRecord → List JobRecord → Bool
is_seen r = any (λ q. same_text q.jobset_id r.jobset_id && same_text q.job_key r.job_key)

-- The loop that checks the batch before any of it is written.
unfoldable pub check_batch : List JobRecord → List JobRecord → M (Unit {0})
check_batch seen [] = pure tt
check_batch seen (r ∷ rs) = do
  _ ← get_jobset r.jobset_id
  jobs ← index_jobs r.jobset_id
  require (not (is_seen r seen || has r.job_key jobs)) value_error
  check_batch (r ∷ seen) rs

unfoldable pub put_all : List JobRecord → Time → M (List JobRecord)
put_all [] now = pure []
put_all (r ∷ rs) now = do
  let r' = stamp_updated r now
  put_rec r'
  out ← put_all rs now
  pure (r' ∷ out)

unfoldable pub store_add_jobs : List JobRecord → Time → M (List JobRecord)
store_add_jobs rs now = do check_batch [] rs; put_all rs now

unfoldable pub get_job : String → String → M JobRecord
get_job jobset_id job_key s = elim (get job_key (jobs_of jobset_id s)) [
  | none ↦ (err (job_not_found jobset_id job_key), s)
  | some r ↦ (ok r, s)
]

unfoldable pub store_delete_job : String → String → M (Option JobRecord)
store_delete_job jobset_id job_key s =
    if has job_key (jobs_of jobset_id s)
    then drop_rec jobset_id job_key s
    else (err (job_not_found jobset_id job_key), s)

abbrev pub cons_some : {A : Type 0} → Option A → List A → List A
cons_some none xs = xs
cons_some (some x) xs = x ∷ xs

abbrev pub drop_present : String → String → M (Option JobRecord)
drop_present jobset_id k s =
    if has k (jobs_of jobset_id s) then drop_rec jobset_id k s else (ok none, s)

unfoldable pub delete_present : String → List String → M (List JobRecord)
delete_present jobset_id [] = pure []
delete_present jobset_id (k ∷ ks) = do
  old ← drop_present jobset_id k
  out ← delete_present jobset_id ks
  pure (cons_some old out)

unfoldable pub store_delete_jobs : String → List String → M (List JobRecord)
store_delete_jobs jobset_id ks s =
    if has jobset_id s.jobs then delete_present jobset_id ks s else (ok [], s)

-- `{k: jobs[k] for k in job_keys if k in jobs}`
unfoldable pub pick_keys :
    Dict String JobRecord → Dict String JobRecord → List String → Dict String JobRecord
pick_keys jobs out [] = out
pick_keys jobs out (k ∷ ks) =
    pick_keys jobs (elim (get k jobs) [ none ↦ out | some r ↦ put k r out ]) ks

unfoldable pub get_jobs_by_keys : String → List String → Store → Dict String JobRecord
get_jobs_by_keys jobset_id ks s = pick_keys (jobs_of jobset_id s) [] ks

-- `r.state in states`; `None` takes every record.
abbrev pub in_states : Option (JobState → Bool) → JobRecord → Bool
in_states none r = true
in_states (some p) r = p r.state

unfoldable pub get_jobs : String → Option (JobState → Bool) → M (List JobRecord)
get_jobs jobset_id states s =
    if has jobset_id s.jobsets
    then (ok (filter (in_states states) (values (jobs_of jobset_id s))), s)
    else (err (jobset_not_found jobset_id), s)

unfoldable pub count_jobs : String → M ℕ
count_jobs jobset_id = do _ ← get_jobset jobset_id; jobs ← index_jobs jobset_id; pure (length jobs)
