-- ===== src/Tests/Samples.antt =====
-- Stores that the tests start from.
use pyqt_lsf_job_manager.Base.{
  List, String, String_discrete, [], false, get, none, put, refl, some, string_key, true, ◌∷◌, ◌≡◌,
}
use pyqt_lsf_job_manager.States.{JobRecord, JobSetRecord, JobState, Time}
use pyqt_lsf_job_manager.Store.Effects.{Store}
use pyqt_lsf_job_manager.Store.Fields.{Field}
use pyqt_lsf_job_manager.Store.Memory.{
  check_batch, get_jobset, put_all, stamp_created, stamp_updated, store_add_jobs,
  store_insert_jobset,
}
use pyqt_lsf_job_manager.Store.Records.{increment, put_rec}
use pyqt_lsf_job_manager.Store.Calls.{
  Call, add_jobs, after, after_all, delete_job, empty, insert_jobset, transit,
}
use pyqt_lsf_job_manager.Store.Consistent.{IsConsistent}
use pyqt_lsf_job_manager.Store.Sound.{after_all-IsConsistent, empty-IsConsistent}
use pyqt_lsf_job_manager.Store.Writes.{record_at}

abbrev pub js : JobSetRecord
js = record { jobset_id = "s"; intended_count = 3; label = ""; tags = []; created_at = none }

abbrev pub job : String → JobState → JobRecord
job key state = record {
  job_id = none;
  array_index = none;
  jobset_id = "s";
  job_key = key;
  state = state;
  fail_reason = none;
  fail_message = none;
  retry_count = 0;
  exit_code = none;
  killed = false;
  submit_time = none;
  command = "true";
  updated_at = none;
  run_time_s = none;
  start_time = none;
  finish_time = none;
  source_cluster = none;
  forward_cluster = none;
  submit_cwd = none;
  user_data = none;
  generation = "g";
  revision = 0;
}

abbrev pub calls : List (Call × Time)
calls =
    (insert_jobset js, 1)
    ∷ (add_jobs (job "a" JobState.created ∷ job "b" JobState.run ∷ []), 2)
    ∷ (transit "s" "a" (some JobState.pend) none (Field.killed true ∷ []), 3)
    ∷ (delete_job "s" "b", 4)
    ∷ []

abbrev pub setup : List (Call × Time)
setup =
    (insert_jobset js, 1)
    ∷ (add_jobs (job "a" JobState.created ∷ job "b" JobState.run ∷ []), 2)
    ∷ []

abbrev pub two_jobs : Store
two_jobs = after_all setup empty

pub two_jobs-IsConsistent : IsConsistent two_jobs
two_jobs-IsConsistent = after_all-IsConsistent setup empty empty-IsConsistent

abbrev pub stored : JobRecord
stored = stamp_updated (job "b" JobState.run) 2

pub two_jobs-jobset : get "s" two_jobs.jobsets ≡ some (stamp_created js 1)
unfolding get put String_discrete after_all after empty store_insert_jobset store_add_jobs
    check_batch put_all put_rec increment get_jobset
two_jobs-jobset = refl

pub two_jobs-record : record_at "s" "b" two_jobs ≡ some stored
unfolding get put String_discrete after_all after empty store_insert_jobset store_add_jobs
    check_batch put_all put_rec increment get_jobset
two_jobs-record = refl
