-- ===== src/Submitting/Launch.antt =====
-- lsfmgr/submitter.py: the start of a cycle of submissions. The gate registers it, pre_submit lets it
-- through or not, the records are reset, and the tasks go to the pool. The loop of the resets is one
-- step; the generations that uuid4 gives are an argument, and a command is the text that shlex.join
-- makes.
use pyqt_lsf_job_manager.Submitting.Refusals.{gate_fail, gate_reject}
use pyqt_lsf_job_manager.Submitting.Cycle.{
  Cycle, Event, cancelled_unit, error, gate_rejected, pre_submit_finished, pre_submit_started,
  queued, records_reset, started,
}
use pyqt_lsf_job_manager.Base.{
  Bool, Dict, List, Option, String, [], false, filter, get, if◌then◌else◌, is_empty, keys, length,
  map, none, not, pair_key, some, string_key, true, ℕ, ◌&&◌, ◌++◌, ◌||◌, ◌∷◌,
}
use pyqt_lsf_job_manager.Store.Memory.{get_jobs_by_keys}
use pyqt_lsf_job_manager.Lifecycle.Gate.{member}
use pyqt_lsf_job_manager.Submitting.Tasks.{Turn}
use pyqt_lsf_job_manager.States.{JobRecord, JobState}
use pyqt_lsf_job_manager.Store.Effects.{Result, err, ok}
use pyqt_lsf_job_manager.Store.Fields.{Field}
use pyqt_lsf_job_manager.Store.Update.{transition}
use pyqt_lsf_job_manager.Submitting.Counting.{count, finish_if_done, tell_changed}
use pyqt_lsf_job_manager.Submitting.Records.{is_record_gone}

-- A key with the text of its command.
abbrev pub Keyed : Type 0
Keyed = String × String

abbrev pub reset_fields : String → String → List Field
reset_fields text fresh =
    Field.job_id none
    ∷ Field.exit_code none
    ∷ Field.fail_reason none
    ∷ Field.fail_message none
    ∷ Field.killed false
    ∷ Field.generation fresh
    ∷ Field.retry_count 0
    ∷ Field.command text
    ∷ Field.submit_time none
    ∷ Field.run_time_s none
    ∷ Field.start_time none
    ∷ Field.finish_time none
    ∷ Field.source_cluster none
    ∷ Field.forward_cluster none
    ∷ []

-- The loop of `_reset_records`: what it has launched, reset and skipped so far. The ids that the
-- status source is to forget are those of the records before the loop.
pub record Resetting : Type 0 where
  pub cycle : Cycle
  pub launch : List String
  pub resets : List JobRecord
  pub stale_ids : List ℕ
  pub skipped : List String

abbrev pub old_id : String → Dict String JobRecord → List ℕ
old_id key previous = elim (get key previous) [
  | none ↦ []
  | some old ↦ elim old.job_id [ none ↦ [] | some n ↦ n ∷ [] ]
]

abbrev counted : List Event → Turn → Cycle → Cycle
counted events t c =
    let (x, es) = count 1 cancelled_unit [] t.monotonic c.context (events ++ c.events) in
    record c { context = x; events = es }

-- How a key goes on after its reset.
abbrev pub after_reset :
    String → Turn → Dict String JobRecord → Result (Option JobRecord) → Resetting → Resetting
after_reset key t previous (ok none) r = record r { launch = r.launch ++ key ∷ [] }
after_reset key t previous (ok (some rec)) r = record r {
  launch = r.launch ++ key ∷ [];
  resets = r.resets ++ rec ∷ [];
  stale_ids = r.stale_ids ++ old_id key previous;
}
after_reset key t previous (err e) r = record r {
  cycle = counted (if is_record_gone e then [] else error t.shown ∷ []) t r.cycle;
}

unfoldable pub reset_all :
    List String
    → (String → String)
    → Turn
    → Dict String JobRecord
    → List Keyed
    → Resetting
    → Resetting
unfolding count
reset_all blocked fresh t previous [] r = r
reset_all blocked fresh t previous ((key, text) ∷ keyed) r =
    let skip =
      reset_all blocked fresh t previous keyed (record r { skipped = r.skipped ++ key ∷ [] }) in
    let (o, store) =
      transition r.cycle.context.jobset_id key (some JobState.submitting) none
        (reset_fields text (fresh key)) t.now r.cycle.store in
    let go_on =
      reset_all blocked fresh t previous keyed
        (after_reset key t previous o (record r { cycle = record r.cycle { store = store } })) in
    if member key blocked then skip else go_on

-- `_reset_records`, after the records of the cycle are read.
unfoldable pub reset_records :
    (String → String) → Turn → Dict String JobRecord → List Keyed → Cycle → Resetting
unfolding reset_all count
reset_records fresh t previous keyed c =
    let r =
      reset_all c.context.cancelled_keys fresh t previous keyed
        (record { cycle = c; launch = []; resets = []; stale_ids = []; skipped = [] }) in
    let (x, es) =
      count (length r.skipped) cancelled_unit [] t.monotonic r.cycle.context r.cycle.events in
    record r { cycle = record r.cycle { context = x; events = es } }

-- The second half of `_launch_cycle`, with the ids to forget.
unfoldable pub fan_out : Resetting → Cycle
fan_out r =
    let c = r.cycle in
    let ready : Cycle = record c {
      events = tell_changed r.resets (records_reset r.resets ∷ c.events);
      works = map (λ key. queued key 0) r.launch ++ c.works;
    } in
    let (x, es) = finish_if_done true ready.context ready.events in
    if c.context.is_finished
    then record c { events = gate_rejected ∷ c.events }
    else if is_empty r.launch
    then record ready { context = x; events = es }
    else ready

-- `_launch_cycle`. The store raises nothing here, so that its handler is not reached.
unfoldable pub launch_cycle : (String → String) → Turn → List Keyed → Cycle → Cycle
unfolding reset_records fan_out
launch_cycle fresh t keyed c =
    let ks = filter (λ k. not (member k c.context.cancelled_keys)) (keys keyed) in
    fan_out (
      reset_records fresh t (get_jobs_by_keys c.context.jobset_id ks c.store) keyed
        (record c { events = started ∷ c.events }))

-- The callback `pre_submit`: what it says, or `none` if it raises, and what the other threads do
-- while it runs.
pub record PreSubmit : Type 0 where
  pub says : Option Bool
  pub meanwhile : Cycle → Cycle

abbrev is_stopped : Cycle → Bool
is_stopped c = c.is_shut_down || c.context.cancel_event

abbrev pub tell : Event → Cycle → Cycle
tell e c = record c { events = e ∷ c.events }

abbrev pub after_pre_submit :
    Option Bool → Bool → (String → String) → Turn → List Keyed → Cycle → Cycle
after_pre_submit none finish_on_reject fresh t keyed c =
    gate_fail t.shown t.now [] (tell (pre_submit_finished false) c)
after_pre_submit (some says) finish_on_reject fresh t keyed c =
    if says && is_stopped c
    then gate_reject true (tell (pre_submit_finished false) c)
    else if not says
    then gate_reject finish_on_reject (tell (pre_submit_finished says) c)
    else launch_cycle fresh t keyed (tell (pre_submit_finished says) c)

-- `_LaunchTask.run`
unfoldable pub launch_task :
    Option PreSubmit → Bool → (String → String) → Turn → List Keyed → Cycle → Cycle
unfolding launch_cycle gate_reject gate_fail
launch_task none finish_on_reject fresh t keyed c = launch_cycle fresh t keyed c
launch_task (some p) finish_on_reject fresh t keyed c =
    let c' = tell pre_submit_started c in
    if is_stopped c'
    then gate_reject true (tell (pre_submit_finished false) c')
    else after_pre_submit p.says finish_on_reject fresh t keyed (p.meanwhile c')

-- `resubmit_existing`, with the launch task at its end; false if nothing is to be launched.
unfoldable pub resubmit_existing :
    Option PreSubmit → Bool → (String → String) → Turn → List Keyed → Cycle → Bool × Cycle
unfolding launch_task
resubmit_existing p finish_on_reject fresh t keyed c =
    if c.is_shut_down
    then (false, c)
    else if c.context.cancel_event
    then (false, gate_reject true (record c { events = started ∷ c.events }))
    else (true, launch_task p finish_on_reject fresh t keyed c)
