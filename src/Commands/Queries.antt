-- ===== src/Commands/Queries.antt =====
-- lsfmgr/command.py, the queries of bjobs: _run_query, _bjobs with the fall-back of its formats, and
-- bjobs_by_ids, which gives up after two calls that fail in a row. What a run of bjobs gives is an
-- argument, as is the reading of its output. An id is kept as its text.
use pyqt_lsf_job_manager.Base.{
  Bool, List, Option, String, [], any, both_texts, false, if◌then◌else◌, is_empty, leb, none, not,
  pos, same_int, some, string_key, suc, true, zero, ℕ, ℤ, ◌&&◌, ◌++◌, ◌+◌, ◌-◌, ◌==◌, ◌||◌, ◌∷◌,
}
use pyqt_lsf_job_manager.States.{JobStatus}
use pyqt_lsf_job_manager.Commands.Chunks.{chunk_args, joined}
use Prim.Native.Char.{Char, code}

abbrev lower_code : Char → ℕ
lower_code c = if leb 65 (code c) && leb (code c) 90 then code c + 32 else code c

abbrev starts_with : String → String → Bool
starts_with String.[] text = true
starts_with (String.◌∷◌ p ps) String.[] = false
starts_with (String.◌∷◌ p ps) (String.◌∷◌ c s) = code p == lower_code c && starts_with ps s

-- `pattern in text.lower()`, with the lower case of ASCII.
unfoldable pub says : String → String → Bool
says String.[] pattern = starts_with pattern String.[]
says (String.◌∷◌ c s) pattern = starts_with pattern (String.◌∷◌ c s) || says s pattern

-- `_NO_JOB_PATTERNS`
abbrev pub no_job_patterns : List String
no_job_patterns = "no unfinished job" ∷ "no matching job" ∷ "is not found" ∷ "no job found" ∷ []

-- `_BJOBS_FIELD_ERR`
abbrev pub field_errors : List String
field_errors =
    "run_time" ∷ "start_time" ∷ "finish_time" ∷ "source_cluster" ∷ "forward_cluster"
    ∷ "unknown field" ∷ "bad field" ∷ "field name" ∷ "illegal" ∷ "not a valid" ∷ "unrecognized"
    ∷ "output format" ∷ "format specification" ∷ "invalid format" ∷ "illegal option" ∷ []

abbrev pub looks_like_field_error : String → Bool
looks_like_field_error text = any (says text) field_errors

-- CommandResult
pub record CommandResult : Type 0 where
  pub returncode : ℤ
  pub stdout : String
  pub stderr : String

-- What comes of a runner: TimeoutExpired, or a result.
pub data Ran : Type 0 where
  expired : Ran
  returned : CommandResult → Ran

-- `failed` is LsfCommandError, with its `stderr`.
pub data Query : Type 0 where
  answered : String → Query
  failed : String → Query

abbrev pub judge_result : Bool → CommandResult → Query
judge_result shut res =
    if shut
    then failed ""
    else if not (same_int res.returncode (pos 0))
        && not (any (says (both_texts res.stderr res.stdout)) no_job_patterns)
    then failed res.stderr
    else answered res.stdout

-- Whether the source is shut down before the run, what the run gives, and whether it is shut down after.
unfoldable pub run_query : Bool × Ran × Bool → Query
run_query (shut_before, ran, shut_after) = if shut_before then failed "" else result_of ran
  where
    result_of : Ran → Query
    result_of expired = failed ""
    result_of (returned res) = judge_result shut_after res

-- The format in use, and the number of the runs of bjobs so far.
pub record Client : Type 0 where
  pub fmt_idx : ℕ
  pub runs : ℕ

-- What a run does, from its number, the format and the selector.
abbrev pub Runner : Type 0
Runner = ℕ → ℕ → List String → Bool × Ran × Bool

abbrev pub ran_once : Client → Client
ran_once c = record c { runs = c.runs + 1 }

-- What is made of a run, where `lower` is what comes of the formats below.
abbrev pub fall_back : Client → Query × Client → Query → Query × Client
fall_back c lower (answered out) = (answered out, ran_once c)
fall_back c lower (failed e) = if looks_like_field_error e then lower else (failed e, ran_once c)

-- The loop of `_bjobs`; the number is that of the formats below the one in use.
unfoldable pub try_formats : Runner → ℕ → List String → Client → Query × Client
try_formats runner zero selector c = (run_query (runner c.runs c.fmt_idx selector), ran_once c)
try_formats runner (suc below) selector c =
    let lower =
      try_formats runner below selector (record c { fmt_idx = c.fmt_idx + 1; runs = c.runs + 1 }) in
    fall_back c lower (run_query (runner c.runs c.fmt_idx selector))

-- `_bjobs`, but for the reading of the output, with the number of `_bjobs_formats`.
unfoldable pub bjobs : Runner → ℕ → List String → Client → Query × Client
bjobs runner formats selector c = try_formats runner (formats - 1 - c.fmt_idx) selector c

-- The rows that were read, and the ids whose query failed.
abbrev pub Found : Type 0
Found = List JobStatus × List String

-- The loop of `bjobs_by_ids`, after a number of calls that failed in a row.
unfoldable pub visit_chunks :
    (String → List JobStatus) → Runner → ℕ → ℕ → List (List String) → Client → Found × Client
visit_chunks read runner formats consecutive [] c = (([], []), c)
visit_chunks read runner formats consecutive (chunk ∷ rest) c =
    let (q, c') = bjobs runner formats chunk c in
    elim q [
      | answered out ↦
          let ((found, bad), c'') = visit_chunks read runner formats 0 rest c' in
          ((read out ++ found, bad), c'')
      | failed e ↦
          let ((found, bad), c'') = visit_chunks read runner formats (consecutive + 1) rest c' in
          if leb 2 (consecutive + 1) && not (is_empty rest)
          then (([], chunk ++ joined rest), c')
          else ((found, chunk ++ bad), c'')
    ]

-- None is ArgMaxExceededError.
unfoldable pub bjobs_by_ids :
    (String → List JobStatus)
    → Runner
    → ℕ
    → (chunk_size arg_max base_len : ℕ) → List String
    → Client
    → Option (Found × Client)
bjobs_by_ids read runner formats chunk_size arg_max base_len ids c =
    elim (chunk_args ids chunk_size arg_max base_len) [
      | none ↦ none
      | some chunks ↦ some (visit_chunks read runner formats 0 chunks c)
    ]
