-- ===== src/Tests/Queries.antt =====
-- The queries and the kills of the commands, at concrete outputs.
use pyqt_lsf_job_manager.Base.{
  All, List, String, [], any, false, length, ltb, none, pos, refl, some, string_key, suc, true,
  zero, ◌+◌, ◌∷◌, ◌≡◌, ◌≤◌, ◌⊎◌,
}
use pyqt_lsf_job_manager.Base.{String_discrete}
use pyqt_lsf_job_manager.States.{run, JobStatus}
use pyqt_lsf_job_manager.Lifecycle.Gate.{member}
use pyqt_lsf_job_manager.Commands.Chunks.{IsCall, chunk_args, chunk_from, joined, room_of}
use pyqt_lsf_job_manager.Commands.Queries.{
  Client, Found, Ran, Runner, bjobs, bjobs_by_ids, expired, returned, run_query, says, try_formats,
  visit_chunks,
}
use pyqt_lsf_job_manager.Commands.Answers.{AccountsFor, bjobs_by_ids-AccountsFor}
use pyqt_lsf_job_manager.Commands.Bkill.{
  bkill_targets_confirm, join_calls, kill_line, leading_digits, parse_bkill_resolved, read_lines,
  run_chunk, split_lines,
}
use pyqt_lsf_job_manager.Commands.Resolved.{
  accepted_by, bkill_targets_confirm-settles, is_late, settled_by, targets_in,
}

-- A bjobs that does not know the first format, and then answers only the first call.
abbrev old_bjobs : Runner
old_bjobs zero fmt selector = (
  false,
  returned (record { returncode = pos 255; stdout = ""; stderr = "run_time: Illegal field" }),
  false,
)
old_bjobs (suc zero) fmt selector = (
  false,
  returned (record {
    returncode = pos 255;
    stdout = "1000;RUN;-";
    stderr = "Job <1001>: No matching job found";
  }),
  false,
)
old_bjobs _ fmt selector = (false, expired, false)

abbrev row : JobStatus
row = record {
  job_id = 1000;
  array_index = none;
  state = run;
  exit_code = none;
  run_time_s = none;
  start_time = none;
  finish_time = none;
  source_cluster = none;
  forward_cluster = none;
}

abbrev one_row : String → List JobStatus
one_row text = row ∷ []

abbrev job_ids : List String
job_ids = "1000" ∷ "1001" ∷ "1002" ∷ "1003" ∷ "1004" ∷ "1005" ∷ "1006" ∷ []

abbrev fresh_client : Client
fresh_client = record { fmt_idx = 0; runs = 0 }

-- Two calls that fail in a row end the query.
bjobs_by_ids_run :
    bjobs_by_ids one_row old_bjobs 2 2 100 40 job_ids fresh_client
    ≡ some (
      (row ∷ [], "1002" ∷ "1003" ∷ "1004" ∷ "1005" ∷ "1006" ∷ []),
      record { fmt_idx = 1; runs = 4 },
    )
unfolding bjobs_by_ids visit_chunks bjobs try_formats run_query says chunk_args chunk_from
bjobs_by_ids_run = refl

bjobs_by_ids-AccountsFor_example :
    ((bjobs_by_ids one_row old_bjobs 2 2 100 40 job_ids fresh_client ≡ none)
      × (any (λ item. ltb 100 (40 + room_of item)) job_ids ≡ true))
    ⊎ ((cs : List (List String)) × (r : Found × Client) × (bjobs_by_ids one_row old_bjobs 2 2 100 40
            job_ids fresh_client
          ≡ some r)
        × (joined cs ≡ job_ids)
        × All (IsCall 2 100 40) cs
        × AccountsFor one_row old_bjobs 2 (length cs) job_ids fresh_client r)
bjobs_by_ids-AccountsFor_example =
    bjobs_by_ids-AccountsFor one_row old_bjobs 2 2 100 40 job_ids fresh_client

abbrev ended : List (List String × Ran)
ended =
    (
      "1000" ∷ "1001" ∷ "1002" ∷ [],
      returned (record {
        returncode = pos 255;
        stdout = "Job <1000[1]> is being terminated\nJob <1001> is being terminated";
        stderr = "Job <1000[2]>: Request aborted\nJob <1002>: Job has already finished";
      }),
    )
    ∷ ("1003" ∷ [], expired)
    ∷ []

-- A parent with an element that is left open is accepted, but not resolved.
bkill_targets_confirm_run : bkill_targets_confirm ended ≡ record {
  resolved = "1000[1]" ∷ "1001" ∷ "1002" ∷ [];
  accepted = "1000[1]" ∷ "1000" ∷ "1001" ∷ [];
  calls = 2;
  timed_out = "1003" ∷ [];
  told = 3 ∷ 4 ∷ [];
}
unfolding bkill_targets_confirm join_calls run_chunk parse_bkill_resolved split_lines read_lines
    kill_line leading_digits says String_discrete
bkill_targets_confirm_run = refl

bkill_targets_confirm-settles_example :
    ((t : String)
      → (member t (bkill_targets_confirm ended).resolved ≡ any (settled_by t) ended)
        × (member t (bkill_targets_confirm ended).accepted ≡ any (accepted_by t) ended)
        × (member t (bkill_targets_confirm ended).timed_out ≡ any (is_late t) ended))
    × ((bkill_targets_confirm ended).calls ≡ length ended)
    × All (λ m. m ≤ targets_in ended) (bkill_targets_confirm ended).told
bkill_targets_confirm-settles_example = bkill_targets_confirm-settles ended
