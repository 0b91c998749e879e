-- ===== src/Submitting/Refusals.antt =====
-- lsfmgr/submitter.py: the context of a new cycle, and how a launch ends that the gate refuses or that
-- the shutdown cuts off (_finish_forced, _gate_reject, _gate_fail).
use pyqt_lsf_job_manager.Submitting.Cycle.{Context, Cycle, error, finished, gate_rejected}
use pyqt_lsf_job_manager.Base.{
  Bool, List, String, [], false, if◌then◌else◌, is_some, length, ltb, not, put, some, string_key,
  true, ℕ, ◌&&◌, ◌++◌, ◌+◌, ◌-◌, ◌∷◌,
}
use pyqt_lsf_job_manager.Lifecycle.Gate.{Activity, Gate, register}
use pyqt_lsf_job_manager.States.{JobRecord, JobState, Time, same_execution, same_state}
use pyqt_lsf_job_manager.Store.Effects.{Store, err, ok}
use pyqt_lsf_job_manager.Store.Fields.{Field}
use pyqt_lsf_job_manager.Store.Update.{transition}
use pyqt_lsf_job_manager.Util.Ledger.{Item}
use pyqt_lsf_job_manager.Util.Emission.{throttler}
use pyqt_lsf_job_manager.Submitting.Counting.{make_report, tell_changed}
use pyqt_lsf_job_manager.Submitting.Records.{clip, max_fail_message_chars, of_option}

-- What `Options` and the configuration give to a context.
pub record Settings : Type 0 where
  pub max_retry : ℕ
  pub retry_delay : ℕ → ℕ
  pub min_interval : ℕ
  pub min_step_ratio : ℕ

-- `_new_context`: a cycle that the gate refuses as a whole is born cancelled, and the keys that it
-- refuses are cancelled.
unfoldable pub new_context : String → List String → Settings → Item Activity → Gate → Context × Gate
unfolding throttler register
new_context id ks o activity gate =
    let (registration, gate') = register id ks activity gate in
    (
      record {
        jobset_id = id;
        total = length ks;
        max_retry = o.max_retry;
        retry_delay = o.retry_delay;
        throttler = throttler o.min_interval o.min_step_ratio;
        cancel_event = not (is_some registration.activity);
        done = 0;
        succeeded = 0;
        failed = 0;
        cancelled = 0;
        retried_keys = [];
        fail_reasons = [];
        pending_retries = [];
        is_finished = false;
        changed_buffer = [];
        cancelled_keys = if is_some registration.activity then registration.refused else [];
        inflight = [];
        registered = true;
      },
      gate',
    )

-- `_finish_forced` with `_drop_ctx`.
unfoldable pub finish_forced : Bool → Bool → Cycle → Cycle
finish_forced as_failed emit_finished c =
    let x = c.context in
    let remaining = x.total - x.done in
    let ended : Context = record x {
      is_finished = true;
      done = x.total;
      failed = if as_failed then x.failed + remaining else x.failed;
      cancelled = if as_failed then x.cancelled else x.cancelled + remaining;
      fail_reasons =
          if as_failed && ltb 0 remaining
          then put "PRE_SUBMIT_FAILED" remaining x.fail_reasons
          else x.fail_reasons;
    } in
    if x.is_finished then record c { context = record x { registered = false } } else record c {
      context = record ended { registered = false };
      events = if emit_finished then finished (make_report ended) ∷ c.events else c.events;
    }

unfoldable pub gate_reject : Bool → Cycle → Cycle
gate_reject finish c = finish_forced false finish (record c { events = gate_rejected ∷ c.events })

-- One turn of the loop of `_gate_fail`.
unfoldable pub unstick : String → String → Time → JobRecord → Store → List JobRecord × Store
unstick id msg now r s =
    let (o, s') =
      transition id r.job_key (some JobState.submit_failed)
        (some (λ cur. same_execution cur r && same_state cur.state JobState.submitting))
        (Field.fail_reason (some "LAUNCH_FAILED")
          ∷ Field.fail_message (some (clip max_fail_message_chars msg))
          ∷ [])
        now s in
    (elim o [ ok changed ↦ of_option changed | err _ ↦ [] ], s')

unfoldable pub unstick_all :
    String → String → Time → List JobRecord → Store → List JobRecord × Store
unstick_all id msg now [] s = ([], s)
unstick_all id msg now (r ∷ rs) s =
    let (stuck, s') = unstick id msg now r s in
    let (others, s'') = unstick_all id msg now rs s' in (stuck ++ others, s'')

unfoldable pub gate_fail : String → Time → List JobRecord → Cycle → Cycle
gate_fail msg now resets c =
    let (stuck, store) = unstick_all c.context.jobset_id msg now resets c.store in
    finish_forced true true
      (record c { store = store; events = gate_rejected ∷ error msg ∷ tell_changed stuck c.events })
