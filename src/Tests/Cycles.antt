-- ===== src/Tests/Cycles.antt =====
-- The properties of the pacer, of the polling and of the scheduler at concrete inputs.
use pyqt_lsf_job_manager.Polling.Merge.{within_submit_grace}
use pyqt_lsf_job_manager.Base.{
  List, String_discrete, [], arith, false, get, get_elem?, none, pair_discrete, pos, refl, some,
  string_key, ℕ, ◌∷◌, ◌≡◌,
}
use pyqt_lsf_job_manager.States.{JobRecord, JobState}
use pyqt_lsf_job_manager.Pacer.{Pacer, accept, drain_key}
use pyqt_lsf_job_manager.Pacer.Queue.{IsDrained, KeepsChanges, accept-changes, drain_key-order}
use pyqt_lsf_job_manager.Polling.Cycle.{Answer, Settings, Verdict, conclude, judge, unchanged}
use pyqt_lsf_job_manager.Polling.Guarded.{conclude-spares, judge-streaks_after, streaks_after}
use pyqt_lsf_job_manager.Store.Writes.{record_at}
use pyqt_lsf_job_manager.Cluster.Jobs.{Job, Stat}
use pyqt_lsf_job_manager.Cluster.Database.{Database}
use pyqt_lsf_job_manager.Cluster.Scheduler.{Config, Round, dispatch_all, tick}
use pyqt_lsf_job_manager.Cluster.Capacity.{IsKept, dispatch_all-IsKept}
use pyqt_lsf_job_manager.Cluster.Settled.{tick-settled}
use pyqt_lsf_job_manager.Tests.Samples.{
  job, stored, two_jobs, two_jobs-IsConsistent, two_jobs-record,
}

abbrev showing : Pacer
showing = record {
  dwell = 1000000;
  shown = (("s", "b"), (JobState.submitting, 0)) ∷ [];
  queue = (("s", "b"), job "b" JobState.pend ∷ []) ∷ [];
  timer = some 1000000;
}

accept-changes_example :
    KeepsChanges
      ("s", "b")
      (job "b" JobState.run)
      JobState.submitting
      showing
      (accept "s" (job "b" JobState.run) 300000 showing)
unfolding get pair_discrete String_discrete
accept-changes_example =
    accept-changes "s" (job "b" JobState.run) 300000 0 JobState.submitting showing refl

drain_key-order_example :
    IsDrained ("s", "b") 1000000 0 showing (drain_key false 1000000 ("s", "b") showing)
unfolding get pair_discrete String_discrete
drain_key-order_example = drain_key-order ("s", "b") 1000000 0 JobState.submitting showing refl

abbrev settings : Settings
settings = record {
  lost_after_missing_polls = 3;
  submit_grace = 0;
  runtime_updates = false;
  collect_clusters = false;
}

abbrev snapshot : JobRecord
snapshot = record (job "b" JobState.pend) { job_id = some 7 }

abbrev no_answer : Answer
no_answer = record { statuses = []; failed = [] }

conclude-spares_example :
    record_at "s" "b" (conclude "s" settings 9 (snapshot ∷ []) no_answer [] two_jobs).0.1
    ≡ some stored
unfolding unchanged String_discrete
conclude-spares_example =
    conclude-spares "s" "b" settings 9 (snapshot ∷ []) no_answer [] two_jobs stored
      two_jobs-IsConsistent two_jobs-record ((λ _. refl), tt)

judge-streaks_after_example :
    judge settings 2 [] (streaks_after settings (λ k. k) snapshot 2) snapshot ≡ Verdict.lost 3
unfolding within_submit_grace
judge-streaks_after_example = judge-streaks_after settings (λ k. k) snapshot 7 refl (λ k. refl) 2

abbrev one_host : Config
one_host = record { hosts = ("hostA", 4) ∷ []; qprio = ("normal", 30) ∷ []; max_dispatch = 2 }

abbrev batch_job : ℕ → Stat → Job
batch_job n stat = record {
  job_id = n;
  queue = "normal";
  submit_time = n;
  stat = stat;
  array_index = none;
  array_limit = 0;
  exec_host = none;
  start_time = none;
  finish_time = none;
  pend_secs = 0;
  run_secs = 5;
  planned_outcome = Stat.done;
  exit_code = pos 0;
  suspend_at = 0;
  suspend_secs = 0;
  susp_since = 0;
  num_cpus = 3;
  requested_hosts = "";
  job_group = "";
  row_id = n;
}

abbrev pending_jobs : List Job
pending_jobs = batch_job 1 Stat.pend ∷ batch_job 2 Stat.pend ∷ []

abbrev first_round : Round
first_round = record { used = []; array_active = []; dispatched_count = 0; changed = [] }

first_round-IsKept : IsKept one_host first_round
unfolding get
first_round-IsKept = record { within = λ h. omega arith; few = omega arith }

dispatch_all-IsKept_example : IsKept one_host (dispatch_all one_host 9 pending_jobs first_round)
dispatch_all-IsKept_example =
    dispatch_all-IsKept one_host 9 pending_jobs first_round first_round-IsKept

abbrev table : Database
table = record {
  rows = batch_job 1 Stat.pend ∷ batch_job 2 Stat.ususp ∷ [];
  events = [];
  counter = 2;
}

tick-settled_example : get_elem? (tick one_host 9 table).rows 1 ≡ some (batch_job 2 Stat.ususp)
tick-settled_example = tick-settled one_host 9 table 1 (batch_job 2 Stat.ususp) refl refl
