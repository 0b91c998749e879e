-- ===== src/Store/Fields.antt =====
-- The keyword fields that a transition carries, and `dataclasses.replace` by them
-- (lsfmgr/store/base.py, lsfmgr/states.py). A field that the store sets itself, and one that a record
-- does not have, are a TypeError of `replace`, so that no value stands for them.
use pyqt_lsf_job_manager.Base.{ℕ, ℤ, String, Bool, true, false, Option, List, [], ◌∷◌, any, not}
use pyqt_lsf_job_manager.States.{Time, JobRecord}
use pyqt_lsf_job_manager.Store.Effects.{M, value_error, require}

pub data Field : Type 0 where
  job_key jobset_id generation command : String → Field
  job_id array_index : Option ℕ → Field
  fail_reason fail_message : Option String → Field
  retry_count : ℕ → Field
  exit_code : Option ℤ → Field
  killed : Bool → Field
  submit_time start_time finish_time : Option Time → Field
  run_time_s : Option ℕ → Field
  source_cluster forward_cluster submit_cwd user_data : Option String → Field

abbrev pub set_field : JobRecord → Field → JobRecord
set_field r (Field.job_key x) = record r { job_key = x }
set_field r (Field.jobset_id x) = record r { jobset_id = x }
set_field r (Field.generation x) = record r { generation = x }
set_field r (Field.command x) = record r { command = x }
set_field r (Field.job_id x) = record r { job_id = x }
set_field r (Field.array_index x) = record r { array_index = x }
set_field r (Field.fail_reason x) = record r { fail_reason = x }
set_field r (Field.fail_message x) = record r { fail_message = x }
set_field r (Field.retry_count x) = record r { retry_count = x }
set_field r (Field.exit_code x) = record r { exit_code = x }
set_field r (Field.killed x) = record r { killed = x }
set_field r (Field.submit_time x) = record r { submit_time = x }
set_field r (Field.start_time x) = record r { start_time = x }
set_field r (Field.finish_time x) = record r { finish_time = x }
set_field r (Field.run_time_s x) = record r { run_time_s = x }
set_field r (Field.source_cluster x) = record r { source_cluster = x }
set_field r (Field.forward_cluster x) = record r { forward_cluster = x }
set_field r (Field.submit_cwd x) = record r { submit_cwd = x }
set_field r (Field.user_data x) = record r { user_data = x }

-- `replace(r, **fields)`
unfoldable pub replace : JobRecord → List Field → JobRecord
replace r [] = r
replace r (f ∷ fs) = replace (set_field r f) fs

abbrev pub is_key_field : Field → Bool
is_key_field (Field.job_key _) = true
is_key_field (Field.jobset_id _) = true
is_key_field _ = false

abbrev pub reject_key_fields : List Field → M (Unit {0})
reject_key_fields fields = require (not (any is_key_field fields)) value_error
