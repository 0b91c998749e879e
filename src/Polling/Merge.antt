-- ===== src/Polling/Merge.antt =====
-- lsfmgr/monitor.py: what an observation by LSF changes of a record, and the one observation that
-- stands for the elements of an array.
use pyqt_lsf_job_manager.Base.{
  Bool, List, Option, String, [], any, false, filter, if◌then◌else◌, ltb, max, min, none, not,
  same_int, same_nat, same_option, some, string_key, true, ℕ, ℤ, ◌&&◌, ◌++◌, ◌+◌, ◌||◌, ◌∷◌,
}
use pyqt_lsf_job_manager.States.{
  JobRecord, JobState, JobStatus, Time, is_on_lsf, same_state, same_text,
}
use pyqt_lsf_job_manager.Store.Fields.{Field}

-- `_keep`
abbrev pub keep : {A : Type 0} → Option A → Option A → Option A
keep none old = old
keep (some new) old = some new

-- `_within_submit_grace`
unfoldable pub within_submit_grace : JobRecord → Time → Time → Bool
within_submit_grace r now grace = ltb 0 grace && elim (keep r.submit_time r.updated_at) [
  | none ↦ false
  | some marker ↦ ltb now (marker + grace)
]

abbrev pub same_time : Option Time → Option Time → Bool
same_time = same_option same_nat

-- The two fields of the clusters, where they are collected.
abbrev pub cluster_changed : Bool → JobRecord → JobStatus → Bool
cluster_changed collect r st =
    collect
    && (not (same_option same_text (keep st.source_cluster r.source_cluster) r.source_cluster)
        || not
            (same_option same_text (keep st.forward_cluster r.forward_cluster) r.forward_cluster))

abbrev pub cluster_fields : Bool → JobRecord → JobStatus → List Field
cluster_fields false r st = []
cluster_fields true r st =
    Field.source_cluster (keep st.source_cluster r.source_cluster)
    ∷ Field.forward_cluster (keep st.forward_cluster r.forward_cluster)
    ∷ []

abbrev pub is_changed : Bool → Bool → JobRecord → JobStatus → Bool
is_changed runtime_updates collect r st =
    not (same_state st.state r.state)
    || not (same_option same_int st.exit_code r.exit_code)
    || not (same_time (keep st.start_time r.start_time) r.start_time)
    || not (same_time (keep st.finish_time r.finish_time) r.finish_time)
    || cluster_changed collect r st
    || (runtime_updates && not (same_time (keep st.run_time_s r.run_time_s) r.run_time_s))

unfoldable pub merge_fields : Bool → Bool → JobRecord → JobStatus → Option (List Field)
merge_fields runtime_updates collect r st =
    if is_changed runtime_updates collect r st
    then some (
        Field.exit_code st.exit_code
          ∷ Field.run_time_s (keep st.run_time_s r.run_time_s)
          ∷ Field.start_time (keep st.start_time r.start_time)
          ∷ Field.finish_time (keep st.finish_time r.finish_time)
          ∷ cluster_fields collect r st
        ++ Field.job_id (keep r.job_id (some st.job_id)) ∷ [])
    else none

-- The first value that is there.
unfoldable pub first_of : {A : Type 0} → (JobStatus → Option A) → List JobStatus → Option A
first_of f [] = none
first_of f (e ∷ es) = let rest = first_of f es in elim (f e) [ none ↦ rest | some a ↦ some a ]

-- `max(...)` or `min(...)` of the values that are there, or None.
unfoldable pub extreme : (ℕ → ℕ → ℕ) → (JobStatus → Option ℕ) → List JobStatus → Option ℕ
extreme pick f [] = none
extreme pick f (e ∷ es) =
    let rest = extreme pick f es in
    elim (f e) [ none ↦ rest | some a ↦ elim rest [ none ↦ some a | some b ↦ some (pick a b) ] ]

-- A text that is there and not empty.
abbrev pub filled : Option String → Option String
filled none = none
filled (some a) = if same_text a "" then none else some a

abbrev pub has_state : JobState → JobStatus → Bool
has_state s e = same_state e.state s

-- The state and the exit code of the whole array.
abbrev pub overall_of : List JobStatus → List JobStatus → JobState × Option ℤ
overall_of (e ∷ es) bad =
    (if any (has_state JobState.run) (e ∷ es) then JobState.run else e.state, none)
overall_of [] [] = (JobState.done, none)
overall_of [] (b ∷ bs) = (JobState.exit, first_of (λ e. e.exit_code) (b ∷ bs))

abbrev pub overall : List JobStatus → JobState × Option ℤ
overall elems =
    overall_of (filter (λ e. is_on_lsf e.state) elems) (filter (has_state JobState.exit) elems)

-- `_aggregate_elements`, for the job id of the record.
unfoldable pub aggregate_elements : ℕ → List JobStatus → JobStatus
unfolding first_of extreme
aggregate_elements n elems =
    let (state, code) = overall elems in
    record {
      job_id = n;
      array_index = none;
      state = state;
      exit_code = code;
      run_time_s = extreme max (λ e. e.run_time_s) elems;
      start_time = extreme min (λ e. e.start_time) elems;
      finish_time =
          if any (λ e. is_on_lsf e.state) elems
          then none
          else extreme max (λ e. e.finish_time) elems;
      source_cluster = first_of (λ e. filled e.source_cluster) elems;
      forward_cluster = first_of (λ e. filled e.forward_cluster) elems;
    }
