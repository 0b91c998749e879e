-- ===== src/States.antt =====
-- lsfmgr/states.py: the states of a job, the observation of a job by LSF, and the records that the
-- store keeps. A datetime is a number of microseconds, a float of seconds too.
pub mod Laws
use pyqt_lsf_job_manager.Base.{
  ℕ, ℤ, String, ◌≡◌, ◌↔◌, refl, Bool, true, false, ◌&&◌, ◌||◌, Option, none, some, List, [], ◌∷◌,
  Dict, String_discrete, ite, arith, ◌==◌,
}

pub data JobState : Type 0 where
  created submitting retry_wait submit_failed cancelled lost : JobState
  pend run done exit psusp ususp ssusp unkwn zombi : JobState

pub JobState-discrete : Discrete JobState
JobState-discrete = hlevel

-- `JobState.X.value`
unfoldable pub value : JobState → String
value JobState.created = "CREATED"
value JobState.submitting = "SUBMITTING"
value JobState.retry_wait = "RETRY_WAIT"
value JobState.submit_failed = "SUBMIT_FAILED"
value JobState.cancelled = "CANCELLED"
value JobState.lost = "LOST"
value JobState.pend = "PEND"
value JobState.run = "RUN"
value JobState.done = "DONE"
value JobState.exit = "EXIT"
value JobState.psusp = "PSUSP"
value JobState.ususp = "USUSP"
value JobState.ssusp = "SSUSP"
value JobState.unkwn = "UNKWN"
value JobState.zombi = "ZOMBI"

-- The sets `_TERMINAL`, `_FAILED` and `_ON_LSF` as membership tests.
abbrev pub is_terminal : JobState → Bool
is_terminal JobState.done = true
is_terminal JobState.exit = true
is_terminal JobState.submit_failed = true
is_terminal JobState.lost = true
is_terminal JobState.cancelled = true
is_terminal _ = false

abbrev pub is_failed : JobState → Bool
is_failed JobState.exit = true
is_failed JobState.submit_failed = true
is_failed JobState.lost = true
is_failed _ = false

abbrev pub is_on_lsf : JobState → Bool
is_on_lsf JobState.pend = true
is_on_lsf JobState.run = true
is_on_lsf JobState.psusp = true
is_on_lsf JobState.ususp = true
is_on_lsf JobState.ssusp = true
is_on_lsf JobState.unkwn = true
is_on_lsf JobState.zombi = true
is_on_lsf _ = false

abbrev pub is_created : JobState → Bool
is_created JobState.created = true
is_created _ = false

abbrev pub is_inactive : JobState → Bool
is_inactive s = is_created s || is_terminal s

-- `a is b` on states: the constructors are compared by their place in the enumeration.
abbrev pub rank : JobState → ℕ
rank JobState.created = 0
rank JobState.submitting = 1
rank JobState.retry_wait = 2
rank JobState.submit_failed = 3
rank JobState.cancelled = 4
rank JobState.lost = 5
rank JobState.pend = 6
rank JobState.run = 7
rank JobState.done = 8
rank JobState.exit = 9
rank JobState.psusp = 10
rank JobState.ususp = 11
rank JobState.ssusp = 12
rank JobState.unkwn = 13
rank JobState.zombi = 14

abbrev pub same_state : JobState → JobState → Bool
same_state a b = rank a == rank b

-- `LSF_STAT_MAP`, from the texts of bjobs.
abbrev pub lsf_stat_map : Dict String JobState
lsf_stat_map =
    ("PEND", JobState.pend)
    ∷ ("RUN", JobState.run)
    ∷ ("PSUSP", JobState.psusp)
    ∷ ("USUSP", JobState.ususp)
    ∷ ("SSUSP", JobState.ssusp)
    ∷ ("UNKWN", JobState.unkwn)
    ∷ ("ZOMBI", JobState.zombi)
    ∷ ("DONE", JobState.done)
    ∷ ("EXIT", JobState.exit)
    ∷ []

abbrev pub Time : Type 0
Time = ℕ

pub record JobStatus : Type 0 where
  pub job_id : ℕ
  pub array_index : Option ℕ
  pub state : JobState
  pub exit_code : Option ℤ
  pub run_time_s : Option ℕ
  pub start_time : Option Time
  pub finish_time : Option Time
  pub source_cluster : Option String
  pub forward_cluster : Option String

-- `user_data` is a JSON value that the library only keeps: its text.
pub record JobRecord : Type 0 where
  pub job_id : Option ℕ
  pub array_index : Option ℕ
  pub jobset_id : String
  pub job_key : String
  pub state : JobState
  pub fail_reason : Option String
  pub fail_message : Option String
  pub retry_count : ℕ
  pub exit_code : Option ℤ
  pub killed : Bool
  pub submit_time : Option Time
  pub command : String
  pub updated_at : Option Time
  pub run_time_s : Option ℕ
  pub start_time : Option Time
  pub finish_time : Option Time
  pub source_cluster : Option String
  pub forward_cluster : Option String
  pub submit_cwd : Option String
  pub user_data : Option String
  pub generation : String
  pub revision : ℕ

abbrev pub same_text : String → String → Bool
same_text a b = ite (String_discrete a b) true false

abbrev pub same_execution : JobRecord → JobRecord → Bool
same_execution a b =
    same_text a.jobset_id b.jobset_id
    && same_text a.job_key b.job_key
    && same_text a.generation b.generation

pub record JobSetRecord : Type 0 where
  pub jobset_id : String
  pub intended_count : ℕ
  pub label : String
  pub tags : List String
  pub created_at : Option Time
