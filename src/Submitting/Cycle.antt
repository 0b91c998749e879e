-- ===== src/Submitting/Cycle.antt =====
-- lsfmgr/submitter.py: the state of a cycle of submissions, what its threads have left to do, and
-- what it tells.
use pyqt_lsf_job_manager.Base.{Bool, Dict, List, Option, String, not, string_key, ℕ, ◌&&◌, ◌||◌}
use pyqt_lsf_job_manager.States.{JobRecord}
use pyqt_lsf_job_manager.Store.Effects.{Store}
use pyqt_lsf_job_manager.Lifecycle.Gate.{member}
use pyqt_lsf_job_manager.Util.Emission.{Throttler}

-- `SubmitReport`, but for its duration.
pub record SubmitReport : Type 0 where
  pub total : ℕ
  pub succeeded : ℕ
  pub failed : ℕ
  pub cancelled : ℕ
  pub retried : ℕ
  pub fail_reasons : Dict String ℕ

-- A signal of the cycle; each carries its job set.
pub data Event : Type 0 where
  started : Event
  progress : ℕ → ℕ → Event
  jobs_changed : List JobRecord → Event
  error : String → Event
  records_reset : List JobRecord → Event
  gate_rejected : Event
  pre_submit_started : Event
  pre_submit_finished : Bool → Event
  finished : SubmitReport → Event

-- `_PendingRetry`: the retry that a timer holds, with the number of the attempt of its task.
pub record PendingRetry : Type 0 where
  pub delay : ℕ
  pub attempt : ℕ

-- `_SubmitContext`. The options are those that the cycle reads, the delay by the attempt.
pub record Context : Type 0 where
  pub jobset_id : String
  pub total : ℕ
  pub max_retry : ℕ
  pub retry_delay : ℕ → ℕ
  pub throttler : Throttler
  pub cancel_event : Bool
  pub done : ℕ
  pub succeeded : ℕ
  pub failed : ℕ
  pub cancelled : ℕ
  pub retried_keys : List String
  pub fail_reasons : Dict String ℕ
  pub pending_retries : Dict String PendingRetry
  pub is_finished : Bool
  pub changed_buffer : List JobRecord
  pub cancelled_keys : List String
  pub inflight : List String
  -- The context stands among those of the submitter, and its activity in the gate.
  pub registered : Bool

-- How `_count` counts.
pub data Kind : Type 0 where
  succeeded_unit : Kind
  failed_unit : String → Kind
  cancelled_unit : Kind

-- What `run_submit` raises, as `SubmitError`, with the text of `diagnostic()`.
pub record SubmitError : Type 0 where
  pub fail_reason : String
  pub diagnostic : String
  pub retryable : Bool

-- What a thread has left to do. The key is that of the task which runs there, if one does: it leaves
-- the section of submission at the end.
pub data Work : Type 0 where
  -- A task in the pool, with its attempt.
  queued : String → ℕ → Work
  -- It has entered the section of submission; then its record is SUBMITTING; then it has looked for
  -- the last time whether it is cancelled; then its wrapper runs.
  entered : String → ℕ → Work
  starting : String → ℕ → Work
  admitted : String → ℕ → Work
  running : String → ℕ → Work
  -- Its wrapper failed: it looks whether the job is cancelled, decides whether to try again, and then
  -- writes RETRY_WAIT, tells of it and schedules the retry, or writes SUBMIT_FAILED.
  failing deciding rewriting : String → ℕ → SubmitError → Work
  retrying : String → ℕ → List JobRecord → Work
  scheduling : String → ℕ → Work
  giving_up : String → ℕ → SubmitError → Work
  -- A unit is over, and is counted, told, and looked at for the end of the cycle.
  counting : Option String → Kind → List JobRecord → Work
  emitting : Option String → Work
  finishing : Option String → Work
  leaving : String → Work
  -- The request of a retry on the way to the main thread, and its timer.
  requested : String → Work
  timed : String → Work
  -- A kill or a cancellation, before it empties the ledger of the retries; a retry that is given up: its record
  -- is read, and then written.
  aborting : Option (List String) → String → Work
  dropped discarding : String → String → Work

pub record Cycle : Type 0 where
  pub context : Context
  pub store : Store
  pub works : List Work
  -- The signals, the newest first.
  pub events : List Event
  pub is_shut_down : Bool

-- `is_active`
abbrev pub is_active : Context → Bool
is_active c = c.registered && not c.is_finished

-- `_cancelled`: the whole cycle, or the job.
abbrev pub is_cancelled : String → Context → Bool
is_cancelled key c = c.cancel_event || member key c.cancelled_keys
