-- ===== src/Submitting/Tasks.antt =====
-- lsfmgr/submitter.py: what a thread of a cycle does between two points at which others may come
-- between. `perform` does one such piece of work on a cycle from which the work is taken, and puts
-- what is left to do before the works of the others. The slots that bound the wrappers of one cycle
-- only delay a task, and log lines are left out.
use pyqt_lsf_job_manager.Submitting.Cycle.{
  Cycle, Kind, PendingRetry, SubmitError, Work, aborting, admitted, cancelled_unit, counting,
  deciding, discarding, dropped, emitting, entered, error, failed_unit, failing, finishing,
  giving_up, is_cancelled, leaving, queued, requested, retrying, rewriting, running, scheduling,
  starting, succeeded_unit, timed,
}
use pyqt_lsf_job_manager.Submitting.Records.{
  Written, crashed, mark_cancelled, mark_crashed, mark_failed, mark_given_up, mark_pend,
  mark_submitting, reason_given_up, vanished, wrote,
}
use pyqt_lsf_job_manager.Base.{
  Dict, List, Option, String, [], false, get, has, if◌then◌else◌, keys, ltb, map, none, not, pop,
  put, some, string_key, true, ℕ, ◌&&◌, ◌++◌, ◌+◌, ◌==◌, ◌||◌, ◌∷◌,
}
use pyqt_lsf_job_manager.States.{JobRecord, JobState, Time}
use pyqt_lsf_job_manager.Store.Effects.{Store}
use pyqt_lsf_job_manager.Lifecycle.Gate.{member, union}
use pyqt_lsf_job_manager.Killing.Confirm.{minus}
use pyqt_lsf_job_manager.Submitting.Counting.{emit_progress, finish_if_done, note_transition, tally}

-- What the wrapper of a task gives: an id, a SubmitError, or any other exception.
pub data Outcome : Type 0 where
  submitted : ℕ → Outcome
  refused : SubmitError → Outcome
  raised : Outcome

-- What a turn finds: the two clocks, the outcome if a wrapper runs, and the text of an exception.
pub record Turn : Type 0 where
  pub now : Time
  pub monotonic : ℕ
  pub outcome : Outcome
  pub shown : String

abbrev pub add : Work → Cycle → Cycle
add w c = record c { works = w ∷ c.works }

unfoldable pub note : List JobRecord → Turn → Cycle → Cycle
note rs t c =
    let (context, events) = note_transition rs t.monotonic c.context c.events in
    record c { context = context; events = events }

abbrev pub over : String → Kind → List JobRecord → Cycle → Cycle
over key kind changed = add (counting (some key) kind changed)

-- `_task_crashed`
abbrev pub crash : String → Turn → Cycle → Cycle
crash key t c =
    let (changed, store) = mark_crashed c.context.jobset_id key t.shown t.now c.store in
    over key (failed_unit "INTERNAL_ERROR") changed
      (record c { store = store; events = error t.shown ∷ c.events })

-- A record that is gone ends the task as `_task_vanished` does.
abbrev pub on_written :
    String → Turn → Written × Store → (List JobRecord → Cycle → Cycle) → Cycle → Cycle
on_written key t (wrote rs, store) next c = next rs (record c { store = store })
on_written key t (vanished, store) next c = over key cancelled_unit [] (record c { store = store })
on_written key t (crashed, store) next c = crash key t (record c { store = store })

-- `_task_cancelled`
unfoldable pub cancel_task : String → Turn → Cycle → Cycle
cancel_task key t c =
    on_written key t (mark_cancelled c.context.jobset_id key t.now c.store)
      (λ rs. over key cancelled_unit rs) c

-- `_enter_inflight`
unfoldable pub enter_inflight : String → ℕ → Cycle → Cycle
enter_inflight key attempt c =
    add (entered key attempt)
      (record c { context = record c.context { inflight = union c.context.inflight (key ∷ []) } })

-- `_schedule_retry`, after the failed attempt.
unfoldable pub schedule_retry : String → ℕ → Cycle → Cycle
schedule_retry key attempt c =
    let entry : PendingRetry = record {
      delay = c.context.retry_delay attempt;
      attempt = attempt + 1;
    } in
    record c {
      context = record c.context { pending_retries = put key entry c.context.pending_retries };
      works = requested key ∷ leaving key ∷ c.works;
    }

abbrev pub note_retried : String → Cycle → Cycle
note_retried key c = record c {
  context = record c.context { retried_keys = union c.context.retried_keys (key ∷ []) };
}

-- `_task_failed`: the look at the cancelled keys.
unfoldable pub fail_task : String → ℕ → SubmitError → Turn → Cycle → Cycle
fail_task key attempt e t c =
    if member key c.context.cancelled_keys
    then cancel_task key t c
    else add (deciding key attempt e) c

-- The test for a retry.
unfoldable pub decide_retry : String → ℕ → SubmitError → Cycle → Cycle
decide_retry key attempt e c =
    if e.retryable
      && ltb attempt c.context.max_retry
      && not c.context.cancel_event
      && not c.is_shut_down
    then add (rewriting key attempt e) c
    else add (giving_up key attempt e) c

unfoldable pub end_wrapper : String → ℕ → Outcome → Turn → Cycle → Cycle
end_wrapper key attempt (submitted pid) t c =
    on_written key t (mark_pend c.context.jobset_id key pid t.now c.store)
      (λ rs. over key succeeded_unit rs) c
end_wrapper key attempt (refused e) t c = add (failing key attempt e) c
end_wrapper key attempt raised t c = crash key t c

-- `fire`: who takes the retry out of the ledger decides on it.
unfoldable pub fire : String → Cycle → Cycle
fire key c = elim (get key c.context.pending_retries) [
  | none ↦ c
  | some entry ↦
      add
        (if c.is_shut_down || c.context.cancel_event
          then dropped key "CANCELLED"
          else queued key entry.attempt)
        (record c {
          context = record c.context { pending_retries = pop key c.context.pending_retries };
        })
]

-- `_on_retry_requested`
unfoldable pub request_retry : String → Cycle → Cycle
request_retry key c =
    if c.is_shut_down || c.context.cancel_event
    then fire key c
    else if has key c.context.pending_retries
    then add (timed key) c
    else c

-- The keys that are in the ledger, one after the other, and what stays.
unfoldable pub pop_each :
    List String → Dict String PendingRetry → List String × Dict String PendingRetry
pop_each [] m = ([], m)
pop_each (k ∷ ks) m =
    let taken = pop_each ks (pop k m) in
    let rest = pop_each ks m in if has k m then (k ∷ taken.0, taken.1) else rest

abbrev pub take_retries :
    Option (List String) → Dict String PendingRetry → List String × Dict String PendingRetry
take_retries none m = (keys m, [])
take_retries (some ks) m = pop_each ks m

-- `_abort_retries_ctx`, up to the turns of its loop.
unfoldable pub abort_retries : Option (List String) → String → Cycle → Cycle
abort_retries scope reason c =
    let (taken, rest) = take_retries scope c.context.pending_retries in
    record c {
      context = record c.context { pending_retries = rest };
      works = map (λ k. dropped k reason) taken ++ c.works;
    }

abbrev pub after_look : String → Option String → Cycle → Cycle
after_look key none c = add (counting none cancelled_unit []) c
after_look key (some reason) c = add (discarding key reason) c

-- `_finalize_retry`, up to its write.
unfoldable pub finalize_retry : String → String → Cycle → Cycle
finalize_retry key reason c =
    after_look key (reason_given_up c.context.jobset_id key reason c.store) c

-- Its write.
unfoldable pub discard : String → String → Turn → Cycle → Cycle
discard key reason t c =
    let (changed, store) = mark_given_up c.context.jobset_id key reason t.now c.store in
    add (counting none cancelled_unit changed) (record c { store = store })

abbrev pub leave_after : Option String → Cycle → Cycle
leave_after none c = c
leave_after (some key) c = add (leaving key) c

unfoldable pub perform : Work → Turn → Cycle → Cycle
perform (queued key attempt) t c =
    if is_cancelled key c.context then cancel_task key t c else enter_inflight key attempt c
perform (entered key attempt) t c =
    on_written key t (mark_submitting c.context.jobset_id key t.now c.store)
      (λ rs c'. add (starting key attempt) (if attempt == 0 then c' else note rs t c')) c
perform (starting key attempt) t c =
    if is_cancelled key c.context then cancel_task key t c else add (admitted key attempt) c
perform (admitted key attempt) t c = add (running key attempt) c
perform (running key attempt) t c = end_wrapper key attempt t.outcome t c
perform (failing key attempt e) t c = fail_task key attempt e t c
perform (deciding key attempt e) t c = decide_retry key attempt e c
perform (rewriting key attempt e) t c =
    on_written key t
      (mark_failed JobState.retry_wait c.context.jobset_id key (attempt + 1) e t.now c.store)
      (λ rs. add (retrying key attempt rs)) c
perform (retrying key attempt rs) t c =
    add (scheduling key attempt) (note rs t (note_retried key c))
perform (scheduling key attempt) t c = schedule_retry key attempt c
perform (giving_up key attempt e) t c =
    on_written key t
      (mark_failed JobState.submit_failed c.context.jobset_id key attempt e t.now c.store)
      (λ rs. over key (failed_unit e.fail_reason) rs) c
perform (counting who kind changed) t c =
    add (emitting who) (record c { context = tally 1 kind changed c.context })
perform (emitting who) t c =
    let (context, events) = emit_progress true t.monotonic c.context c.events in
    add (finishing who) (record c { context = context; events = events })
perform (finishing who) t c =
    let (context, events) = finish_if_done false c.context c.events in
    leave_after who (record c { context = context; events = events })
perform (leaving key) t c = record c {
  context = record c.context { inflight = minus c.context.inflight (key ∷ []) };
}
perform (requested key) t c = request_retry key c
perform (timed key) t c = fire key c
perform (aborting scope reason) t c = abort_retries scope reason c
perform (dropped key reason) t c = finalize_retry key reason c
perform (discarding key reason) t c = discard key reason t c
