-- ===== src/Cluster/Jobs.antt =====
-- mocklsf/models.py: a job of the mock LSF, one row of its database. A time is a number of
-- microseconds.
use pyqt_lsf_job_manager.Base.{Bool, Option, String, false, string_key, true, ℕ, ℤ, ◌==◌}
use pyqt_lsf_job_manager.States.{Time}

pub data Stat : Type 0 where
  pend run done exit psusp ususp ssusp : Stat

abbrev pub stat_rank : Stat → ℕ
stat_rank Stat.pend = 0
stat_rank Stat.run = 1
stat_rank Stat.done = 2
stat_rank Stat.exit = 3
stat_rank Stat.psusp = 4
stat_rank Stat.ususp = 5
stat_rank Stat.ssusp = 6

abbrev pub same_stat : Stat → Stat → Bool
same_stat a b = stat_rank a == stat_rank b

-- `FINISHED_STATES` and `ACTIVE_STATES`
abbrev pub is_finished : Stat → Bool
is_finished Stat.done = true
is_finished Stat.exit = true
is_finished _ = false

abbrev pub is_occupying : Stat → Bool
is_occupying Stat.run = true
is_occupying Stat.ssusp = true
is_occupying Stat.ususp = true
is_occupying _ = false

pub record Job : Type 0 where
  pub job_id : ℕ
  pub queue : String
  pub submit_time : Time
  pub stat : Stat
  pub array_index : Option ℕ
  pub array_limit : ℕ
  pub exec_host : Option String
  pub start_time : Option Time
  pub finish_time : Option Time
  pub pend_secs : Time
  pub run_secs : Time
  pub planned_outcome : Stat
  pub exit_code : ℤ
  pub suspend_at : Time
  pub suspend_secs : Time
  pub susp_since : Time
  pub num_cpus : ℕ
  pub requested_hosts : String
  pub job_group : String
  pub row_id : ℕ
