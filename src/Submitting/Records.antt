-- ===== src/Submitting/Records.antt =====
-- lsfmgr/submitter.py: what the threads of a cycle write to the records. A result has the records to
-- tell; `vanished` is a record that is gone, `crashed` any other exception.
use pyqt_lsf_job_manager.Submitting.Cycle.{SubmitError}
use pyqt_lsf_job_manager.Base.{
  Bool, List, Option, String, String_discrete, [], false, if◌then◌else◌, is_some, ite, none, not,
  some, string_key, suc, true, zero, ℕ, ◌||◌, ◌∷◌,
}
use pyqt_lsf_job_manager.States.{JobRecord, JobState, Time, same_state}
use pyqt_lsf_job_manager.Store.Effects.{
  Result, Store, StoreError, err, job_not_found, jobset_not_found, ok,
}
use pyqt_lsf_job_manager.Store.Fields.{Field}
use pyqt_lsf_job_manager.Store.Memory.{get_job}
use pyqt_lsf_job_manager.Store.Update.{Spec, transition, transition_many}

-- `RECORD_GONE` of lsfmgr/errors.py.
abbrev pub is_record_gone : StoreError → Bool
is_record_gone (jobset_not_found _) = true
is_record_gone (job_not_found _ _) = true
is_record_gone _ = false

pub data Written : Type 0 where
  wrote : List JobRecord → Written
  vanished crashed : Written

abbrev pub of_option : Option JobRecord → List JobRecord
of_option none = []
of_option (some r) = r ∷ []

abbrev failed_write : StoreError → Written
failed_write e = if is_record_gone e then vanished else crashed

abbrev pub written_one : Result (Option JobRecord) → Written
written_one (ok o) = wrote (of_option o)
written_one (err e) = failed_write e

abbrev pub written_all : Result (List JobRecord) → Written
written_all (ok rs) = wrote rs
written_all (err e) = failed_write e

-- `text[:n]`
unfoldable pub clip : ℕ → String → String
clip zero s = String.[]
clip (suc n) String.[] = String.[]
clip (suc n) (String.◌∷◌ c s) = String.◌∷◌ c (clip n s)

abbrev pub max_fail_message_chars : ℕ
max_fail_message_chars = 4000

-- `_run`: the record of a task that begins.
unfoldable pub mark_submitting : String → String → Time → Store → Written × Store
mark_submitting id key now s =
    let (r, s') = transition id key (some JobState.submitting) none [] now s in (written_one r, s')

-- `_task_succeeded`
unfoldable pub mark_pend : String → String → ℕ → Time → Store → Written × Store
mark_pend id key pid now s =
    let (r, s') =
      transition id key (some JobState.pend) none
        (Field.job_id (some pid)
          ∷ Field.submit_time (some now)
          ∷ Field.fail_reason none
          ∷ Field.fail_message none
          ∷ [])
        now s in
    (written_one r, s')

-- `_task_failed`, where a retry follows and where none does; the number is the retry count.
unfoldable pub mark_failed :
    JobState → String → String → ℕ → SubmitError → Time → Store → Written × Store
mark_failed state id key retries e now s =
    let (r, s') =
      transition id key (some state) none
        (Field.retry_count retries
          ∷ Field.fail_reason (some e.fail_reason)
          ∷ Field.fail_message (some (clip max_fail_message_chars e.diagnostic))
          ∷ [])
        now s in
    (written_one r, s')

abbrev pub is_pending_submit : JobRecord → Bool
is_pending_submit r =
    same_state r.state JobState.submitting || same_state r.state JobState.retry_wait

abbrev pub cancel_spec : String → Spec
cancel_spec key = record {
  job_key = key;
  new_state = some JobState.cancelled;
  guard = some is_pending_submit;
  fields =
      Field.fail_reason (some "CANCELLED")
      ∷ Field.fail_message none
      ∷ Field.retry_count 0
      ∷ Field.killed true
      ∷ [];
}

-- `_mark_cancelled`, up to its count.
unfoldable pub mark_cancelled : String → String → Time → Store → Written × Store
mark_cancelled id key now s =
    let (r, s') = transition_many id (cancel_spec key ∷ []) now s in (written_all r, s')

-- `_task_crashed`: the write for an exception that is not a missing record; what it raises is
-- swallowed.
unfoldable pub mark_crashed : String → String → String → Time → Store → List JobRecord × Store
mark_crashed id key shown now s =
    let (r, s') =
      transition id key (some JobState.submit_failed) (some (λ cur. not (is_some cur.job_id)))
        (Field.fail_reason (some "INTERNAL_ERROR")
          ∷ Field.fail_message (some (clip max_fail_message_chars shown))
          ∷ [])
        now s in
    (elim r [ ok o ↦ of_option o | err _ ↦ [] ], s')

abbrev give_up : Result (Option JobRecord) × Store → List JobRecord × Store
give_up (ok o, s) = (of_option o, s)
give_up (err _, s) = ([], s)

abbrev reason_or : String → Option String → String
reason_or reason none = reason
reason_or reason (some r) = ite (String_discrete r "") reason r

-- `_finalize_retry`, the look at the record: the reason that is to be written, if it still waits. An
-- exception is swallowed.
unfoldable pub reason_given_up : String → String → String → Store → Option String
reason_given_up id key reason s = elim (get_job id key s).0 [
  | err _ ↦ none
  | ok rec ↦
      if same_state rec.state JobState.retry_wait
      then some (reason_or reason rec.fail_reason)
      else none
]

-- Then the write, which has no guard.
unfoldable pub mark_given_up : String → String → String → Time → Store → List JobRecord × Store
mark_given_up id key reason now s = give_up (
    transition id key (some JobState.cancelled) none
      (Field.killed true ∷ Field.fail_reason (some reason) ∷ []) now s)
