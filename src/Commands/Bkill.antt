-- ===== src/Commands/Bkill.antt =====
-- lsfmgr/command.py, bkill: _parse_bkill_resolved reads the output of one call, and
-- bkill_targets_confirm makes the calls and joins what they gave, in the order in which they end. A
-- runner that raises OSError is not modelled.
use pyqt_lsf_job_manager.States.{same_text}
use pyqt_lsf_job_manager.Base.{
  Bool, List, Option, String, [], any, both_texts, if◌then◌else◌, leb, length, none, pair_key, some,
  string_key, ℕ, ◌&&◌, ◌++◌, ◌+◌, ◌==◌, ◌∷◌,
}
use pyqt_lsf_job_manager.Lifecycle.Gate.{member, union}
use pyqt_lsf_job_manager.Killing.Confirm.{minus}
use pyqt_lsf_job_manager.Commands.Queries.{Ran, expired, returned, says}
use Prim.Native.Char.{Char, code}

-- `_BKILL_ACCEPTED_MSGS`
abbrev pub accepted_msgs : List String
accepted_msgs =
    "is being terminated" ∷ "is being signaled" ∷ "is being requeued" ∷ "is being killed"
    ∷ "in progress of being terminated" ∷ []

-- `_BKILL_GONE_MSGS`
abbrev pub gone_msgs : List String
gone_msgs =
    "already finished" ∷ "has already" ∷ "no matching job" ∷ "is not found" ∷ "no unfinished job"
    ∷ "not found" ∷ []

-- A line of bkill: the job, its parent if the job is an element, and the rest of the line, with its
-- blanks.
pub record KillLine : Type 0 where
  pub job : String
  pub parent : Option String
  pub message : String

-- The digits that a text begins with, and the rest.
unfoldable pub leading_digits : String → String × String
leading_digits String.[] = (String.[], String.[])
leading_digits (String.◌∷◌ c s) =
    let (d, rest) = leading_digits s in
    if leb 48 (code c) && leb (code c) 57
    then (String.◌∷◌ c d, rest)
    else (String.[], String.◌∷◌ c s)

-- The rest of the text after the prefix.
abbrev after_prefix : String → String → Option String
after_prefix String.[] text = some text
after_prefix (String.◌∷◌ p ps) String.[] = none
after_prefix (String.◌∷◌ p ps) (String.◌∷◌ c s) =
    let rest = after_prefix ps s in if code p == code c then rest else none

-- After the number of a job: `>`, or an index and `>`.
abbrev after_job : String → String → Option KillLine
after_job id text = elim (after_prefix ">" text) [
  | some rest ↦ some (record { job = id; parent = none; message = rest })
  | none ↦ elim (after_prefix "[" text) [
    | none ↦ none
    | some more ↦
        let (index, rest) = leading_digits more in
        if same_text index "" then none else elim (after_prefix "]>" rest) [
          | none ↦ none
          | some message ↦ some (record {
            job = both_texts id (both_texts "[" (both_texts index "]"));
            parent = some id;
            message = message;
          })
        ]
  ]
]

-- `_BKILL_LINE_RE.search(line)`
unfoldable pub kill_line : String → Option KillLine
kill_line String.[] = none
kill_line (String.◌∷◌ c s) =
    let later = kill_line s in
    elim (after_prefix "Job <" (String.◌∷◌ c s)) [
      | none ↦ later
      | some rest ↦
          let (id, more) = leading_digits rest in
          if same_text id ""
          then later
          else elim (after_job id more) [ none ↦ later | some l ↦ some l ]
    ]

-- What a line says of its job.
pub data Verdict : Type 0 where
  taken_up gone_already left_open : Verdict

abbrev pub verdict_of : String → Verdict
verdict_of message =
    if any (says message) accepted_msgs
    then taken_up
    else if any (says message) gone_msgs
    then gone_already
    else left_open

-- The targets that a line is about, of a call with the given targets.
abbrev pub ids_of : List String → KillLine → List String
ids_of requested l = elim l.parent [
  | none ↦ l.job ∷ []
  | some p ↦ if member p requested then l.job ∷ p ∷ [] else l.job ∷ []
]

pub record Buckets : Type 0 where
  pub resolved_ids : List String
  pub accepted_ids : List String
  pub unresolved_ids : List String

abbrev pub add_ids : Verdict → List String → Buckets → Buckets
add_ids taken_up ids b = record b {
  resolved_ids = union b.resolved_ids ids;
  accepted_ids = union b.accepted_ids ids;
}
add_ids gone_already ids b = record b { resolved_ids = union b.resolved_ids ids }
add_ids left_open ids b = record b { unresolved_ids = union b.unresolved_ids ids }

-- One turn of the loop over the lines.
abbrev pub add_line : List String → Option KillLine → Buckets → Buckets
add_line requested none b = b
add_line requested (some l) b = add_ids (verdict_of l.message) (ids_of requested l) b

unfoldable pub read_lines : List String → List String → Buckets → Buckets
read_lines requested [] b = b
read_lines requested (line ∷ lines) b =
    read_lines requested lines (add_line requested (kill_line line) b)

-- The ends of lines of `str.splitlines`; a line feed after a carriage return ends an empty line.
abbrev is_line_end : Char → Bool
is_line_end c = any (λ n. code c == n) (10 ∷ 11 ∷ 12 ∷ 13 ∷ 28 ∷ 29 ∷ 30 ∷ 133 ∷ 8232 ∷ 8233 ∷ [])

abbrev put_first : Char → List String → List String
put_first c [] = String.◌∷◌ c String.[] ∷ []
put_first c (line ∷ lines) = String.◌∷◌ c line ∷ lines

unfoldable pub split_lines : String → List String
split_lines String.[] = []
split_lines (String.◌∷◌ c s) =
    if is_line_end c then "" ∷ split_lines s else put_first c (split_lines s)

-- The targets that are resolved, and those whose kill was accepted.
unfoldable pub parse_bkill_resolved : String → List String → List String × List String
parse_bkill_resolved text requested =
    let b =
      read_lines requested (split_lines text)
        (record { resolved_ids = []; accepted_ids = []; unresolved_ids = [] }) in
    (minus b.resolved_ids b.unresolved_ids, b.accepted_ids)

-- What is known of the targets, and the numbers of targets that were told as the calls ended.
pub record Killed : Type 0 where
  pub resolved : List String
  pub accepted : List String
  pub calls : ℕ
  pub timed_out : List String
  pub told : List ℕ

-- `run_chunk`: the targets that are resolved, those that are accepted, and those of a call that did not
-- return in time.
unfoldable pub run_chunk : List String → Ran → List String × List String × List String
run_chunk chunk expired = ([], [], chunk)
run_chunk chunk (returned res) =
    let (got, acc) =
      parse_bkill_resolved (both_texts res.stdout (both_texts "\n" res.stderr)) chunk in
    (got, acc, [])

-- The loop over the calls that have ended, after a number of targets.
unfoldable pub join_calls : ℕ → List (List String × Ran) → Killed → Killed
join_calls processed [] k = k
join_calls processed ((chunk, ran) ∷ ended) k =
    let (got, acc, late) = run_chunk chunk ran in
    join_calls (processed + length chunk) ended (record k {
      resolved = union k.resolved got;
      accepted = union k.accepted acc;
      timed_out = union k.timed_out late;
      told = k.told ++ (processed + length chunk) ∷ [];
    })

-- The calls that have ended, in their order, are an argument: the pool runs the chunks that
-- `chunk_args` gives.
unfoldable pub bkill_targets_confirm : List (List String × Ran) → Killed
bkill_targets_confirm ended =
    join_calls 0 ended
      (record { resolved = []; accepted = []; calls = length ended; timed_out = []; told = [] })
