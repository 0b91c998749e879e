-- ===== src/Submitting/Counting.antt =====
-- lsfmgr/submitter.py, _count, _note_transition, _emit_progress and _finish_if_done: each section
-- under the lock of the context is one function. `now` is the value of time.monotonic().
use pyqt_lsf_job_manager.Base.{
  Bool, Dict, List, String, [], false, get, if◌then◌else◌, leb, length, ltb, not, or_default, put,
  string_key, true, ℕ, ◌&&◌, ◌++◌, ◌+◌, ◌==◌, ◌||◌, ◌∷◌,
}
use pyqt_lsf_job_manager.States.{JobRecord}
use pyqt_lsf_job_manager.Util.Emission.{should_emit, throttler}
use pyqt_lsf_job_manager.Submitting.Cycle.{
  Context, Event, Kind, SubmitReport, cancelled_unit, failed_unit, finished, jobs_changed, progress,
  succeeded_unit,
}

abbrev add_reason : ℕ → Kind → Dict String ℕ → Dict String ℕ
add_reason n (failed_unit reason) counts = put reason (or_default 0 (get reason counts) + n) counts
add_reason n _ counts = counts

-- The first section of `_count`.
unfoldable pub tally : ℕ → Kind → List JobRecord → Context → Context
tally n kind changed c = record c {
  done = c.done + n;
  succeeded = elim kind [ succeeded_unit ↦ c.succeeded + n | _ ↦ c.succeeded ];
  failed = elim kind [ failed_unit _ ↦ c.failed + n | _ ↦ c.failed ];
  cancelled = elim kind [ cancelled_unit ↦ c.cancelled + n | _ ↦ c.cancelled ];
  fail_reasons = add_reason n kind c.fail_reasons;
  changed_buffer = c.changed_buffer ++ changed;
}

-- The signals of a batch, newest first, before those of the past.
abbrev pub tell_changed : List JobRecord → List Event → List Event
tell_changed [] events = events
tell_changed (r ∷ rs) events = jobs_changed (r ∷ rs) ∷ events

unfoldable pub emit_progress : Bool → ℕ → Context → List Event → Context × List Event
emit_progress with_progress now c events =
    if c.is_finished
    then (c, events)
    else let (lets, throttler) = should_emit c.throttler now c.done c.total in
      if lets
      then (
        record c { throttler = throttler; changed_buffer = [] },
        tell_changed c.changed_buffer
            (if with_progress then progress c.done c.total ∷ events else events),
      )
      else (c, events)

unfoldable pub note_transition : List JobRecord → ℕ → Context → List Event → Context × List Event
note_transition [] now c events = (c, events)
note_transition (r ∷ rs) now c events =
    emit_progress false now (record c { changed_buffer = c.changed_buffer ++ r ∷ rs }) events

unfoldable pub make_report : Context → SubmitReport
make_report c = record {
  total = c.total;
  succeeded = c.succeeded;
  failed = c.failed;
  cancelled = c.cancelled;
  retried = length c.retried_keys;
  fail_reasons = c.fail_reasons;
}

-- With `_drop_ctx`, which takes the context out of the submitter and of the gate.
unfoldable pub finish_if_done : Bool → Context → List Event → Context × List Event
finish_if_done force c events =
    if c.is_finished || (ltb c.done c.total && not force) then (c, events) else (
      record c { is_finished = true; changed_buffer = []; registered = false },
      finished (make_report c)
          ∷ tell_changed c.changed_buffer
              (if leb c.total c.done then progress c.total c.total ∷ events else events),
    )

-- `_count` with all its sections, where no other thread comes between.
unfoldable pub count : ℕ → Kind → List JobRecord → ℕ → Context → List Event → Context × List Event
unfolding tally emit_progress finish_if_done
count n kind changed now c events =
    if n == 0
    then (c, events)
    else let (c', events') = emit_progress true now (tally n kind changed c) events in
      finish_if_done false c' events'
