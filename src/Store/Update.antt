-- ===== src/Store/Update.antt =====
-- The methods of InMemoryStore that rewrite a record which is there, and its queries over job sets
-- (lsfmgr/store/memory.py, with the template of transition_many in lsfmgr/store/base.py).
use pyqt_lsf_job_manager.Base.{
  ℕ, String, ◌+◌, ◌-◌, Bool, true, false, not, ◌&&◌, Option, none, some, List, [], ◌∷◌, Dict, get,
  put, values, or_default, string_key, filter, any, total, ltb, if◌then◌else◌,
}
use pyqt_lsf_job_manager.States.{JobState, value, Time, JobRecord, JobSetRecord, same_text}
use pyqt_lsf_job_manager.Store.Effects.{Store, ok, M, ◌>>=◌, ◌>>◌, pure, raise, key_error}
use pyqt_lsf_job_manager.Store.Fields.{Field, replace, reject_key_fields}
use pyqt_lsf_job_manager.Store.Records.{put_rec}
use pyqt_lsf_job_manager.Store.Memory.{jobs_of, index_jobs, get_job, get_jobset, cons_some}

-- `self._jobs[jobset_id][job_key]`
abbrev pub index_job : String → String → M JobRecord
index_job jobset_id job_key = do
  jobs ← index_jobs jobset_id
  elim (get job_key jobs) [ none ↦ raise key_error | some r ↦ pure r ]

-- `replace(record, updated_at=now, _revision=revision + 1, state=state, **fields)`
abbrev pub next_record : JobRecord → ℕ → Time → JobState → List Field → JobRecord
next_record r revision now state fields =
    let new = replace r fields in
    record new { state = state; updated_at = some now; revision = revision + 1 }

unfoldable pub replace_rec : JobRecord → Time → JobState → List Field → M JobRecord
replace_rec r now state fields = do
  stored ← index_job r.jobset_id r.job_key
  let new = next_record r stored.revision now state fields
  put_rec new
  pure new

unfoldable pub update_job : JobRecord → Time → M JobRecord
update_job r now = do _ ← get_job r.jobset_id r.job_key; replace_rec r now r.state []

abbrev pub Guard : Type 0
Guard = Option (JobRecord → Bool)

abbrev pub passes : Guard → JobRecord → Bool
passes none r = true
passes (some g) r = g r

-- What a write gives, where the guard lets it through.
abbrev pub when_some : {A : Type 0} → Bool → M A → M (Option A)
when_some true m = do new ← m; pure (some new)
when_some false m = pure none

-- `new_state=None` keeps the state.
unfoldable pub transition :
    String → String → Option JobState → Guard → List Field → Time → M (Option JobRecord)
transition jobset_id job_key new_state guard fields now = do
  reject_key_fields fields
  old ← get_job jobset_id job_key
  when_some (passes guard old) (replace_rec old now (or_default old.state new_state) fields)

pub record Spec : Type 0 where
  pub job_key : String
  pub new_state : Option JobState
  pub guard : Guard
  pub fields : List Field

-- One turn of the loop over the specs: a record that is gone and one that the guard refuses are
-- passed over.
unfoldable pub transition_spec : String → Time → Spec → M (Option JobRecord)
transition_spec jobset_id now spec s = elim (get spec.job_key (jobs_of jobset_id s)) [
  | none ↦ (ok none, s)
  | some old ↦
      when_some (passes spec.guard old)
        (replace_rec old now (or_default old.state spec.new_state) spec.fields) s
]

unfoldable pub transition_many_impl : String → List Spec → Time → M (List JobRecord)
transition_many_impl jobset_id [] now = pure []
transition_many_impl jobset_id (spec ∷ specs) now = do
  new ← transition_spec jobset_id now spec
  out ← transition_many_impl jobset_id specs now
  pure (cons_some new out)

-- The template: all the fields are checked before anything is written.
abbrev pub reject_all : List Spec → M (Unit {0})
reject_all [] = pure tt
reject_all (spec ∷ specs) = do reject_key_fields spec.fields; reject_all specs

unfoldable pub transition_many : String → List Spec → Time → M (List JobRecord)
transition_many jobset_id specs now = do reject_all specs; transition_many_impl jobset_id specs now

-- The dict of a summary: `total` stands apart from the counts of the states.
pub record Summary : Type 0 where
  pub intended : ℕ
  pub by_state : Dict String ℕ

-- Records that are not made yet count as CREATED.
unfoldable pub summary_from_counts : JobSetRecord → Dict String ℕ → Summary
summary_from_counts jobset counts =
    let missing = jobset.intended_count - total (λ n. n) counts in
    let key = value JobState.created in
    record {
      intended = jobset.intended_count;
      by_state =
          if ltb 0 missing
          then put key (or_default 0 (get key counts) + missing) counts
          else counts;
    }

unfoldable pub summary : String → M Summary
summary jobset_id s =
    (do
      js ← get_jobset jobset_id
      pure (summary_from_counts js (or_default [] (get jobset_id s.counts))))
      s

-- `make_summary`: the counts by a scan of the records.
unfoldable pub count_states : Dict String ℕ → List JobRecord → Dict String ℕ
count_states counts [] = counts
count_states counts (r ∷ rs) =
    let key = value r.state in count_states (put key (or_default 0 (get key counts) + 1) counts) rs

unfoldable pub make_summary : JobSetRecord → List JobRecord → Summary
unfolding count_states summary_from_counts
make_summary jobset rs = summary_from_counts jobset (count_states [] rs)

-- The tests of `search` that skip a job set.
abbrev pub tag_fits : Option String → JobSetRecord → Bool
tag_fits none js = true
tag_fits (some tag) js = any (same_text tag) js.tags

abbrev pub label_fits : Option String → JobSetRecord → Bool
label_fits none js = true
label_fits (some label) js = same_text label js.label

abbrev pub since_fits : Option Time → JobSetRecord → Bool
since_fits none js = true
since_fits (some since) js = elim js.created_at [ none ↦ false | some t ↦ not (ltb t since) ]

unfoldable pub search : Option String → Option String → Option Time → Store → List JobSetRecord
search tag label since s =
    filter (λ js. tag_fits tag js && label_fits label js && since_fits since js) (values s.jobsets)
