-- ===== src/Tests/Kills.antt =====
-- The properties of kills and of commands at concrete inputs.
use pyqt_lsf_job_manager.Commands.Chunks.{IsCall, chunk_args, chunk_args-IsCall, joined, room_of}
use pyqt_lsf_job_manager.Base.{
  All, List, Option, String, [], any, false, filter, if◌then◌else◌, is_empty, ltb, none, not, refl,
  some, string_key, true, ℕ, ◌&&◌, ◌+◌, ◌==◌, ◌∷◌, ◌≡◌, ◌≤◌, ◌⊎◌,
}
use pyqt_lsf_job_manager.States.{JobState, JobStatus}
use pyqt_lsf_job_manager.Lifecycle.Gate.{member}
use pyqt_lsf_job_manager.Polling.Cycle.{Answer}
use pyqt_lsf_job_manager.Killing.Targets.{digits, element, form_of, is_hit, parent_of, range}
use pyqt_lsf_job_manager.Killing.Confirm.{Reply, is_gone, judge_target, kill_confirm}
use pyqt_lsf_job_manager.Killing.Parts.{alive, judge_target-dead, kill_confirm-accounts}

abbrev bkill : ℕ → List String → Reply
bkill attempt pending = record {
  resolved = if attempt == 0 then "7" ∷ [] else [];
  accepted = "7" ∷ "8[2]" ∷ [];
  calls = 1;
  timed_out = "8[2]" ∷ [];
}

abbrev status : ℕ → Option ℕ → JobState → JobStatus
status n index state = record {
  job_id = n;
  array_index = index;
  state = state;
  exit_code = none;
  run_time_s = none;
  start_time = none;
  finish_time = none;
  source_cluster = none;
  forward_cluster = none;
}

abbrev one_runs : Answer
one_runs = record {
  statuses = status 8 (some 1) JobState.run ∷ status 8 (some 2) JobState.exit ∷ [];
  failed = [];
}

abbrev asks : ℕ → List String → Option Answer
asks attempt pending = some one_runs

kill_confirm-accounts_example :
    let c = kill_confirm bkill asks 2 ("7" ∷ "8[2]" ∷ []) in
    ((t : String)
      → member t c.unconfirmed
        ≡ (member t ("7" ∷ "8[2]" ∷ []) && not (member t c.resolved_targets)))
    × ((t : String) → member t c.marked ≡ true → member t c.resolved_targets ≡ true)
    × (c.retries_made ≤ 2)
    × ((is_empty c.unconfirmed ≡ true) ⊎ (c.retries_made ≡ 2))
kill_confirm-accounts_example = kill_confirm-accounts bkill asks 2 ("7" ∷ "8[2]" ∷ [])

form_of-element : form_of "8[2]" ≡ element 8 2
unfolding form_of digits
form_of-element = refl

form_of-range : form_of "8[2-5]" ≡ range 8 2 5
unfolding form_of digits
form_of-range = refl

one_over : is_gone (judge_target one_runs "8[2]") ≡ true
unfolding form_of digits judge_target is_hit
one_over = refl

judge_target-dead_example :
    (id : ℕ) × (parent_of (form_of "8[2]") ≡ some id)
    × (any (λ n. n == id) one_runs.failed ≡ false)
    × (any alive (filter (is_hit (form_of "8[2]")) one_runs.statuses) ≡ false)
judge_target-dead_example = judge_target-dead one_runs "8[2]" one_over

abbrev ids : List String
ids = "1000" ∷ "1001" ∷ "1002" ∷ []

chunk_args-IsCall_example :
    ((cs : List (List String)) × (chunk_args ids 2 100 10 ≡ some cs)
      × (joined cs ≡ ids)
      × All (IsCall 2 100 10) cs)
    ⊎ ((chunk_args ids 2 100 10 ≡ none) × (any (λ item. ltb 100 (10 + room_of item)) ids ≡ true))
chunk_args-IsCall_example = chunk_args-IsCall ids 2 100 10
