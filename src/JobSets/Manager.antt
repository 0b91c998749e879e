-- ===== src/JobSets/Manager.antt =====
-- lsfmgr/jobset_core.py: the operations of JobSetManager that write; `now` is the time at which a
-- call runs. A call holds the lock of the manager, which keeps out the other calls of the manager; the
-- transitions that workers write between two calls of the store are arguments of the operations that
-- read records and write on what they read.
use pyqt_lsf_job_manager.Store.Effects.{
  M, Store, edit, err, job_not_found, not_allowed, ok, pure, raise, remove, remove_jobset, require,
  value_error, ◌>>=◌, ◌>>◌,
}
use pyqt_lsf_job_manager.Base.{
  Bool, Dict, List, Option, String, [], any, false, filter, get, has, if◌then◌else◌, is_empty,
  is_some, ltb, map, negsuc, none, not, or_default, pos, some, string_key, true, ℕ, ℤ, ◌&&◌, ◌==◌,
  ◌||◌, ◌∷◌,
}
use pyqt_lsf_job_manager.States.{
  JobRecord, JobSetRecord, JobState, Time, is_terminal, same_execution, same_state, same_text,
}
use pyqt_lsf_job_manager.Store.Fields.{Field}
use pyqt_lsf_job_manager.Store.Memory.{
  count_jobs, get_jobs, get_jobs_by_keys, get_jobset, store_add_job, store_add_jobs,
  store_delete_jobs, store_delete_jobset, store_insert_jobset, update_jobset,
}
use pyqt_lsf_job_manager.Store.Update.{Spec, transition_many, update_job}
use pyqt_lsf_job_manager.JobSets.Choices.{active_keys, check_records, reads}

-- `generated` is the value of generate_jobset_id(). The empty id is taken as none.
unfoldable pub local_create_jobset :
    ℤ → String → List String → Option String → String → Time → M JobSetRecord
local_create_jobset (negsuc n) label tags id generated now = raise value_error
local_create_jobset (pos n) label tags id generated now =
    let given = or_default "" id in
    store_insert_jobset
      (record {
        jobset_id = if same_text given "" then generated else given;
        intended_count = n;
        label = label;
        tags = tags;
        created_at = some now;
      })
      now

abbrev pub record_keys : List JobRecord → List String
record_keys = map (λ r. r.job_key)

abbrev pub with_count : JobSetRecord → ℕ → JobSetRecord
with_count js n = record js { intended_count = n }

-- `if changed: self.store.update_jobset(js)`
abbrev pub write_count : Bool → JobSetRecord → M (Unit {0})
write_count true js = do _ ← update_jobset js; pure tt
write_count false js = pure tt

-- The creation only raises the intended count.
abbrev pub raise_count : String → M (Unit {0})
raise_count id = do
  js ← get_jobset id
  n ← count_jobs id
  write_count (ltb js.intended_count n) (with_count js n)

unfoldable pub local_create_jobs : String → List JobRecord → Time → M (List JobRecord)
local_create_jobs id [] now = pure []
local_create_jobs id (r ∷ rs) now = do
  _ ← get_jobset id
  check_records id [] (r ∷ rs)
  existing ← reads (get_jobs_by_keys id (record_keys (r ∷ rs)))
  require (not (any (λ q. has q.job_key existing) (r ∷ rs))) value_error
  out ← store_add_jobs (r ∷ rs) now
  raise_count id
  pure out

unfoldable pub sync_intended_count : String → M (Unit {0})
sync_intended_count id = do
  js ← get_jobset id
  n ← count_jobs id
  write_count (not (js.intended_count == n)) (with_count js n)

pub data Policy : Type 0 where
  add replace upsert : Policy

-- What the policy says of a record, from the one under its key.
abbrev pub matched :
    Policy → String → JobRecord → Option JobRecord → M (JobRecord × Option JobRecord)
matched Policy.add id r (some old) = raise value_error
matched Policy.replace id r none = raise (job_not_found id r.job_key)
matched Policy.add id r none = pure (r, none)
matched Policy.replace id r (some old) = pure (r, some old)
matched Policy.upsert id r old = pure (r, old)

-- The loop that makes the plan.
unfoldable pub plan_edit :
    Policy
    → String
    → Dict String JobRecord
    → List JobRecord
    → M (List (JobRecord × Option JobRecord))
plan_edit policy id by_key [] = pure []
plan_edit policy id by_key (r ∷ rs) = do
  p ← matched policy id r (get r.job_key by_key)
  plan ← plan_edit policy id by_key rs
  pure (p ∷ plan)

-- `[o for _, o in plan if o is not None]`
unfoldable pub replaced : List (JobRecord × Option JobRecord) → List JobRecord
replaced [] = []
replaced ((r, none) ∷ plan) = replaced plan
replaced ((r, some old) ∷ plan) = old ∷ replaced plan

abbrev pub write_one : JobRecord × Option JobRecord → Time → M JobRecord
write_one (r, some old) now = update_job r now
write_one (r, none) now = store_add_job r now

unfoldable pub write_plan : List (JobRecord × Option JobRecord) → Time → M (List JobRecord)
write_plan [] now = pure []
write_plan (p ∷ plan) now = do r ← write_one p now; out ← write_plan plan now; pure (r ∷ out)

-- Other threads write to the store.
abbrev pub meanwhile : (Store → Store) → M (Unit {0})
meanwhile others s = (ok tt, others s)

-- `before_write` is what workers write after the check of the active jobs.
unfoldable pub local_edit_jobs :
    String → List JobRecord → Policy → Bool → (Store → Store) → Time → M (List JobRecord)
local_edit_jobs id rs policy force before_write now = do
  _ ← get_jobset id
  check_records id [] rs
  by_key ← reads (get_jobs_by_keys id (record_keys rs))
  plan ← plan_edit policy id by_key rs
  let busy = active_keys (replaced plan)
  require (is_empty busy || force) (not_allowed edit id busy)
  meanwhile before_write
  changed ← write_plan plan now
  sync_intended_count id
  pure changed

-- `_delete_jobs`
unfoldable pub delete_jobs : String → List JobRecord → Bool → M (List JobRecord)
delete_jobs id targets force = do
  let busy = active_keys targets
  require (is_empty busy || force) (not_allowed remove id busy)
  removed ← store_delete_jobs id (record_keys targets)
  sync_intended_count id
  pure removed

unfoldable pub look_up_all : String → Dict String JobRecord → List String → M (List JobRecord)
look_up_all id by_key [] s = (ok [], s)
look_up_all id by_key (k ∷ ks) s = elim (get k by_key) [
  | none ↦ (err (job_not_found id k), s)
  | some r ↦ (do out ← look_up_all id by_key ks; pure (r ∷ out)) s
]

-- `before_delete` is what workers write after the records were read.
unfoldable pub local_remove_jobs :
    String → List String → Bool → (Store → Store) → M (List JobRecord)
local_remove_jobs id ks force before_delete = do
  require (not (is_empty ks)) value_error
  _ ← get_jobset id
  by_key ← reads (get_jobs_by_keys id ks)
  targets ← look_up_all id by_key ks
  meanwhile before_delete
  delete_jobs id targets force

unfoldable pub local_clear_jobs : String → Bool → M (List JobRecord)
local_clear_jobs id force = do jobs ← get_jobs id none; delete_jobs id jobs force

-- The records whose submission got no id.
abbrev pub is_candidate : JobRecord → Bool
is_candidate r = not (is_some r.job_id) && same_state r.state JobState.submitting

-- `_still(rec)`
abbrev pub still : JobRecord → JobRecord → Bool
still r cur = same_execution cur r && not (is_some cur.job_id) && same_state cur.state r.state

-- `a or b` on texts: the empty text counts as none.
abbrev pub or_text : Option String → String → String
or_text none b = b
or_text (some a) b = if same_text a "" then b else a

abbrev pub lost_spec : JobRecord → Spec
lost_spec r = record {
  job_key = r.job_key;
  new_state = some JobState.lost;
  guard = some (still r);
  fields = Field.fail_reason (some (or_text r.fail_reason "NO_JOBID_PARSED")) ∷ [];
}

-- No lock is held between the calls of the store: `before_read` and `before_write` are what other
-- threads do there.
unfoldable pub detect_lost : String → (Store → Store) → (Store → Store) → Time → M (List JobRecord)
detect_lost id before_read before_write now = do
  _ ← get_jobset id
  meanwhile before_read
  jobs ← get_jobs id none
  meanwhile before_write
  let candidates = filter is_candidate jobs
  if is_empty candidates then pure [] else transition_many id (map lost_spec candidates) now

unfoldable pub local_remove_jobset : String → Bool → M JobSetRecord
local_remove_jobset id force = do
  js ← get_jobset id
  jobs ← get_jobs id none
  let running = filter (λ r. not (is_terminal r.state)) jobs
  require (is_empty running || force) (not_allowed remove_jobset id (record_keys running))
  store_delete_jobset id
  pure js
