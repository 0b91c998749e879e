-- ===== src/Polling/Cycle.antt =====
-- lsfmgr/monitor.py, JobsetQuerier: one query of a job set, with what it remembers between queries. The
-- answer of the status source is an argument, and so is what other threads do with the store while
-- the query waits for it. Queries of one job set do not overlap.
use pyqt_lsf_job_manager.Base.{
  Bool, Dict, List, Option, String, [], any, false, filter, get, if◌then◌else◌, is_empty, keys,
  length, ltb, max, none, put, same_nat, same_option, some, string_key, true, ℕ, ◌&&◌, ◌++◌, ◌+◌,
  ◌==◌, ◌∷◌,
}
use pyqt_lsf_job_manager.States.{
  JobRecord, JobState, JobStatus, Time, is_on_lsf, same_execution, same_state, same_text,
}
use pyqt_lsf_job_manager.Store.Effects.{Result, Store, err, ok, pure, ◌>>=◌}
use pyqt_lsf_job_manager.Store.Fields.{Field}
use pyqt_lsf_job_manager.Store.Memory.{get_jobs, get_jobs_by_keys}
use pyqt_lsf_job_manager.Store.Update.{Spec, Summary, summary, transition_many}
use pyqt_lsf_job_manager.Polling.Merge.{aggregate_elements, merge_fields, within_submit_grace}

-- `submit_grace` is the value of `_submit_grace_s`.
pub record Settings : Type 0 where
  pub lost_after_missing_polls : ℕ
  pub submit_grace : Time
  pub runtime_updates : Bool
  pub collect_clusters : Bool

-- key → (generation, queries in a row that did not find it), for one job set.
abbrev pub Streaks : Type 0
Streaks = Dict String (String × ℕ)

-- What the status source answers: the statuses, and the ids whose query failed.
pub record Answer : Type 0 where
  pub statuses : List JobStatus
  pub failed : List ℕ

abbrev pub same_element : JobStatus → JobStatus → Bool
same_element a b = a.job_id == b.job_id && same_option same_nat a.array_index b.array_index

-- `statuses[...] = st`, in the place of the one before it.
unfoldable pub note_status : JobStatus → List JobStatus → List JobStatus
note_status st [] = st ∷ []
note_status st (e ∷ es) =
    let rest = note_status st es in if same_element st e then st ∷ es else e ∷ rest

unfoldable pub latest : List JobStatus → List JobStatus → List JobStatus
unfolding note_status
latest seen [] = seen
latest seen (st ∷ sts) = latest (note_status st seen) sts

abbrev pub is_element_of : ℕ → Option ℕ → JobStatus → Bool
is_element_of n index st = st.job_id == n && same_option same_nat st.array_index index

abbrev pub head_of : List JobStatus → Option JobStatus
head_of [] = none
head_of (e ∷ _) = some e

-- The elements of an array stand for a record of the whole array.
abbrev pub whole_array : ℕ → Option ℕ → List JobStatus → Option JobStatus
whole_array n (some _) sts = none
whole_array n none sts =
    let elems = filter (λ st. st.job_id == n) sts in
    if is_empty elems then none else some (aggregate_elements n elems)

unfoldable pub lookup : List JobStatus → JobRecord → Option JobStatus
lookup sts r = elim r.job_id [
  | none ↦ none
  | some n ↦ elim (head_of (filter (is_element_of n r.array_index) sts)) [
    | some st ↦ some st
    | none ↦ whole_array n r.array_index sts
  ]
]

-- The guard of the compare-and-set.
unfoldable pub unchanged : JobRecord → JobRecord → Bool
unchanged r cur =
    same_execution cur r && same_option same_nat cur.job_id r.job_id && same_state cur.state r.state

-- What is judged of a record that the answer does not know.
pub data Verdict : Type 0 where
  deferred young : Verdict
  waiting lost : ℕ → Verdict

-- The queries in a row without the record, with this one.
abbrev pub next_count : Streaks → JobRecord → ℕ
next_count prev r = elim (get r.job_key prev) [
  | none ↦ 1
  | some (gen, count) ↦ if same_text gen r.generation then count + 1 else 1
]

abbrev pub is_unknown : List ℕ → JobRecord → Bool
is_unknown failed r = elim r.job_id [ none ↦ true | some n ↦ any (λ m. m == n) failed ]

unfoldable pub judge : Settings → Time → List ℕ → Streaks → JobRecord → Verdict
judge c now failed prev r =
    if is_unknown failed r
    then deferred
    else if within_submit_grace r now c.submit_grace
    then young
    else let n = next_count prev r in
      if ltb n (max 1 c.lost_after_missing_polls) then waiting n else lost n

abbrev pub counted : JobRecord → Verdict → Streaks → Streaks
counted r deferred cur = cur
counted r young cur = cur
counted r (waiting n) cur = put r.job_key (r.generation, n) cur
counted r (lost n) cur = put r.job_key (r.generation, n) cur

abbrev pub lost_spec : JobRecord → Spec
lost_spec r = record {
  job_key = r.job_key;
  new_state = some JobState.lost;
  guard = some (unchanged r);
  fields = Field.fail_reason (some "NOT_FOUND_IN_LSF") ∷ [];
}

abbrev pub spec_of : JobRecord → Verdict → List Spec
spec_of r (lost n) = lost_spec r ∷ []
spec_of r _ = []

-- The loop of `_judge_missing`.
unfoldable pub judge_all :
    Settings → Time → List ℕ → Streaks → Streaks → List JobRecord → List Spec × Streaks
judge_all c now failed prev cur [] = ([], cur)
judge_all c now failed prev cur (r ∷ rs) =
    let v = judge c now failed prev r in
    let (specs, cur') = judge_all c now failed prev (counted r v cur) rs in
    (spec_of r v ++ specs, cur')

-- `_current_streaks`: those of executions that are still tracked.
abbrev pub is_tracked : Dict String JobRecord → String × (String × ℕ) → Bool
is_tracked current (key, (gen, _)) = elim (get key current) [
  | none ↦ false
  | some r ↦ same_text r.generation gen && is_on_lsf r.state
]

unfoldable pub current_streaks : String → Streaks → Store → Streaks
current_streaks id streaks s = filter (is_tracked (get_jobs_by_keys id (keys streaks) s)) streaks

abbrev pub update_spec : Settings → JobRecord → JobStatus → List Spec
update_spec c r st = elim (merge_fields c.runtime_updates c.collect_clusters r st) [
  | none ↦ []
  | some fields ↦
      record {
        job_key = r.job_key;
        new_state = some st.state;
        guard = some (unchanged r);
        fields = fields;
      }
      ∷ []
]

-- The loop over the targets: the updates, and the records that are missing.
unfoldable pub match_targets :
    Settings → List JobStatus → List JobRecord → List Spec × List JobRecord
match_targets c sts [] = ([], [])
match_targets c sts (r ∷ rs) =
    let (specs, missing) = match_targets c sts rs in
    elim (lookup sts r) [
      | none ↦ (specs, r ∷ missing)
      | some st ↦ (update_spec c r st ++ specs, missing)
    ]

pub record QueryResult : Type 0 where
  pub jobset_id : String
  pub summary_after : Summary
  pub changed : List JobRecord
  pub lost_records : List JobRecord
  pub checked : ℕ
  pub query_failed : List ℕ

abbrev pub ids_of : List JobRecord → List ℕ
ids_of [] = []
ids_of (r ∷ rs) = elim r.job_id [ none ↦ ids_of rs | some n ↦ n ∷ ids_of rs ]

-- No id, no query.
abbrev pub asked : List JobRecord → Answer → Answer
asked targets a = if is_empty (ids_of targets) then record { statuses = []; failed = [] } else a

-- From the answer on, with the streaks that are left.
unfoldable pub conclude :
    String
    → Settings
    → Time
    → List JobRecord
    → Answer
    → Streaks
    → Store
    → (Result QueryResult × Store) × Streaks
conclude id c now targets a prev s =
    let (updates, missing) = match_targets c (latest [] a.statuses) targets in
    let (losts, cur) = judge_all c now a.failed prev [] missing in
    (
      (do
        changed ← transition_many id updates now
        lost_now ← transition_many id losts now
        sm ← summary id
        pure (record {
          jobset_id = id;
          summary_after = sm;
          changed = changed ++ lost_now;
          lost_records = lost_now;
          checked = length targets;
          query_failed = a.failed;
        }))
          s,
      current_streaks id cur s,
    )

-- `_query_serialized`. `meanwhile` is what other threads do while the status source is asked.
unfoldable pub query :
    String
    → Settings
    → Time
    → Answer
    → (Store → Store)
    → Streaks
    → Store
    → (Result QueryResult × Store) × Streaks
query id c now a meanwhile prev s = query_of (get_jobs id (some is_on_lsf) s).0
  where
    query_of : Result (List JobRecord) → (Result QueryResult × Store) × Streaks
    query_of (err e) = ((err e, s), prev)
    query_of (ok []) = (
      (do
        sm ← summary id
        pure (record {
          jobset_id = id;
          summary_after = sm;
          changed = [];
          lost_records = [];
          checked = 0;
          query_failed = [];
        }))
          s,
      prev,
    )
    query_of (ok (r ∷ rs)) = conclude id c now (r ∷ rs) (asked (r ∷ rs) a) prev (meanwhile s)
