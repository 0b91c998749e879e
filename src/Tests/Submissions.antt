-- ===== src/Tests/Submissions.antt =====
-- The properties of submissions at concrete inputs.
use pyqt_lsf_job_manager.Submitting.Cycle.{Cycle, aborting, is_cancelled, queued, timed}
use pyqt_lsf_job_manager.Submitting.Sound.{IsSound, Told, one, units}
use pyqt_lsf_job_manager.Submitting.Steps.{Reach, act, cancel_scope, here, kill, next}
use pyqt_lsf_job_manager.Submitting.Performed.{Step-IsSound}
use pyqt_lsf_job_manager.Submitting.Outcome.{born, launch_cycle-IsSound}
use pyqt_lsf_job_manager.Submitting.Costs.{cost}
use pyqt_lsf_job_manager.Submitting.Bounded.{Acts-bounded, no_act, one_act}
use pyqt_lsf_job_manager.Base.{
  IsUnique, List, String, String_discrete, [], false, get, keys, length, refl, some, string_key,
  sum_of, total, true, ◌+◌, ◌∷◌, ◌≡◌, ◌≤◌,
}
use pyqt_lsf_job_manager.Store.Calls.{empty}
use pyqt_lsf_job_manager.Store.Memory.{get_job, get_jobs_by_keys, pick_keys}
use pyqt_lsf_job_manager.Store.Update.{transition}
use pyqt_lsf_job_manager.Util.Ledger.{Item}
use pyqt_lsf_job_manager.Util.Emission.{should_emit, throttler}
use pyqt_lsf_job_manager.Lifecycle.Gate.{Activity, Gate, refused_by, register}
use pyqt_lsf_job_manager.Submitting.Counting.{
  count, emit_progress, finish_if_done, make_report, tally,
}
use pyqt_lsf_job_manager.Submitting.Tasks.{Turn, perform, raised}
use pyqt_lsf_job_manager.Submitting.Refusals.{Settings, new_context}
use pyqt_lsf_job_manager.Submitting.Launch.{Keyed, fan_out, launch_cycle, reset_all, reset_records}
use pyqt_lsf_job_manager.Submitting.Stays.{runs}
use pyqt_lsf_job_manager.Submitting.Ends.{
  cancelled-admits_none, launch_cycle-counts_once, launch_cycle-ends,
}
use pyqt_lsf_job_manager.Tests.Samples.{two_jobs}

abbrev settings : Settings
settings = record {
  max_retry = 2;
  retry_delay = λ a. 1000000;
  min_interval = 500000;
  min_step_ratio = 10000;
}

abbrev own : Item Activity
own = record { ident = 1; value = record { timeout = 60 } }

abbrev no_gate : Gate
no_gate = record { activities = []; barriers = [] }

abbrev commands : List Keyed
commands = ("a", "sub -i a.sp") ∷ ("b", "sub -i b.sp") ∷ []

commands-IsUnique : IsUnique commands
unfolding get String_discrete
commands-IsUnique = (refl, (refl, tt))

abbrev turn : Turn
turn = record { now = 9; monotonic = 1000000; outcome = raised; shown = "RuntimeError()" }

abbrev fresh : String → String
fresh key = "h"

abbrev start : Cycle
start = launch_cycle fresh turn commands (born "s" commands settings own no_gate two_jobs)

abbrev killed : Cycle
killed = cancel_scope (some ("a" ∷ [])) start

abbrev emptied : Cycle
emptied = perform (aborting (some ("a" ∷ [])) "KILLED") turn (record killed { works = start.works })

run : Reach start emptied
unfolding cancel_scope
run = next (next here (kill (some ("a" ∷ [])) refl)) (act [] start.works _ turn refl refl)

launch_cycle-counts_once_example :
    (emptied.context.done + sum_of units emptied.works + total one emptied.context.pending_retries
      ≡ length (keys commands))
    × (emptied.context.done
        ≡ emptied.context.succeeded + emptied.context.failed + emptied.context.cancelled)
    × (emptied.context.is_finished ≡ true → emptied.context.done ≡ length (keys commands))
    × Told (length (keys commands)) emptied.context.is_finished emptied.events
launch_cycle-counts_once_example =
    launch_cycle-counts_once "s" commands settings own no_gate two_jobs fresh turn {d = emptied}
      commands-IsUnique run

-- The records are gone, so that no task starts.
abbrev gone : Cycle
gone = launch_cycle fresh turn commands (born "s" commands settings own no_gate empty)

gone-works : gone.works ≡ []
unfolding launch_cycle new_context throttler register refused_by reset_records reset_all count tally
    emit_progress finish_if_done fan_out get_jobs_by_keys pick_keys transition get_job empty get
    String_discrete should_emit make_report
gone-works = refl

launch_cycle-ends_example :
    (gone.context.is_finished ≡ true)
    × (gone.context.done ≡ length (keys commands))
    × (total one gone.context.pending_retries ≡ 0)
launch_cycle-ends_example =
    launch_cycle-ends "s" commands settings own no_gate empty fresh turn {d = gone}
      commands-IsUnique here gone-works

-- A kill has named the job, whose retry a timer holds; then the timer fires.
abbrev held : Cycle
held = record start {
  context = record start.context {
    cancel_event = false;
    cancelled_keys = "a" ∷ [];
    pending_retries = ("a", record { delay = 1000000; attempt = 1 }) ∷ [];
  };
  works = timed "a" ∷ queued "b" 0 ∷ [];
}

held_a : is_cancelled "a" held.context ≡ true
unfolding String_discrete
held_a = refl

abbrev fired : Cycle
fired = perform (timed "a") turn (record held { works = queued "b" 0 ∷ [] })

cancelled-admits_none_example :
    (is_cancelled "a" fired.context ≡ true)
    × (sum_of (runs "a") fired.works ≤ sum_of (runs "a") held.works)
cancelled-admits_none_example =
    cancelled-admits_none "a" held_a
      (next {d = held} {e = fired} here (act [] (queued "b" 0 ∷ []) (timed "a") turn refl refl))

killed-IsSound : IsSound killed
killed-IsSound =
    Step-IsSound {c = start} {d = killed} (kill (some ("a" ∷ [])) refl)
      (launch_cycle-IsSound "s" commands settings own no_gate two_jobs fresh turn commands-IsUnique)

Acts-bounded_example :
    (emptied.context.max_retry ≡ killed.context.max_retry)
    × (1 + cost killed.context.max_retry emptied ≤ cost killed.context.max_retry killed)
unfolding cancel_scope
Acts-bounded_example = Acts-bounded {c = killed} {d = emptied} killed-IsSound (
    one_act {d = killed} {e = emptied} [] start.works (aborting (some ("a" ∷ [])) "KILLED") turn
      no_act refl refl)
