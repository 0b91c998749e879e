-- ===== src/JobSets/Choices.antt =====
-- lsfmgr/jobset_core.py: which records a call means, and the checks before anything is written.
-- The log lines are not modelled.
use pyqt_lsf_job_manager.Base.{
  Bool, Dict, List, Option, String, [], any, false, filter, get, if◌then◌else◌, is_blank, is_empty,
  is_some, map, nat_key, none, not, put, some, string_key, true, ℕ, ◌==◌, ◌∷◌,
}
use pyqt_lsf_job_manager.States.{JobRecord, is_inactive, same_text}
use pyqt_lsf_job_manager.Store.Effects.{
  M, Store, StoreError, err, job_not_found, not_allowed, ok, pure, require, submit, value_error,
  ◌>>=◌, ◌>>◌,
}
use pyqt_lsf_job_manager.Store.Memory.{get_jobs, get_jobs_by_keys, get_jobset}

abbrev pub is_member : String → List String → Bool
is_member k = any (same_text k)

unfoldable pub check_records : String → List String → List JobRecord → M (Unit {0})
check_records id seen [] = pure tt
check_records id seen (r ∷ rs) = do
  require (same_text r.jobset_id id) value_error
  require (not (is_blank r.job_key)) value_error
  require (not (is_member r.job_key seen)) value_error
  check_records id (r.job_key ∷ seen) rs

-- A job is named by its key or by its LSF id.
pub data Ref : Type 0 where
  key_ref : String → Ref
  id_ref : ℕ → Ref

abbrev pub is_id : Ref → Bool
is_id (key_ref k) = false
is_id (id_ref n) = true

abbrev pub ref_keys : List Ref → List String
ref_keys [] = []
ref_keys (key_ref k ∷ refs) = k ∷ ref_keys refs
ref_keys (id_ref n ∷ refs) = ref_keys refs

-- `{r.job_key: r for r in jobs}`
unfoldable pub keyed_by : Dict String JobRecord → List JobRecord → Dict String JobRecord
keyed_by d [] = d
keyed_by d (r ∷ rs) = keyed_by (put r.job_key r d) rs

-- `{r.job_id: r for r in jobs if r.job_id is not None and r.array_index is None}`
unfoldable pub parents_by_id : Dict ℕ JobRecord → List JobRecord → Dict ℕ JobRecord
parents_by_id d [] = d
parents_by_id d (r ∷ rs) =
    parents_by_id
      (if is_some r.array_index then d else elim r.job_id [ none ↦ d | some n ↦ put n r d ]) rs

abbrev pub has_job_id : ℕ → JobRecord → Bool
has_job_id n r = elim r.job_id [ none ↦ false | some m ↦ m == n ]

-- The record of a reference, from the two dicts.
abbrev pub look_up : Dict String JobRecord → Dict ℕ JobRecord → Ref → Option JobRecord
look_up keyed parents (key_ref k) = get k keyed
look_up keyed parents (id_ref n) = get n parents

-- The error of a reference with no record. An id that only elements of an array have is told apart.
abbrev pub missing_ref : String → List JobRecord → Ref → StoreError
missing_ref id jobs (key_ref k) = job_not_found id k
missing_ref id jobs (id_ref n) =
    if any (has_job_id n) jobs then value_error else job_not_found id ""

-- The loop over the references.
unfoldable pub resolve_each :
    String
    → List JobRecord
    → Dict String JobRecord
    → Dict ℕ JobRecord
    → List String
    → List Ref
    → M (List JobRecord)
resolve_each id jobs keyed parents seen [] s = (ok [], s)
resolve_each id jobs keyed parents seen (ref ∷ refs) s = elim (look_up keyed parents ref) [
  | none ↦ (err (missing_ref id jobs ref), s)
  | some r ↦ elim (is_member r.job_key seen) [
    | true ↦ resolve_each id jobs keyed parents seen refs s
    | false ↦
        (do out ← resolve_each id jobs keyed parents (r.job_key ∷ seen) refs; pure (r ∷ out)) s
  ]
]

-- `self.store.get_jobs_by_keys(...)`, which never raises.
abbrev pub reads : {A : Type 0} → (Store → A) → M A
reads f s = (ok (f s), s)

unfoldable pub resolve_refs : String → List Ref → M (List JobRecord)
resolve_refs id refs = do
  _ ← get_jobset id
  elim (any is_id refs) [
    | true ↦ do
      jobs ← get_jobs id none
      resolve_each id jobs (keyed_by [] jobs) (parents_by_id [] jobs) [] refs
    | false ↦ do
      keyed ← reads (get_jobs_by_keys id (ref_keys refs))
      resolve_each id [] keyed [] [] refs
  ]

abbrev pub is_element : JobRecord → Bool
is_element r = is_some r.array_index

abbrev pub is_active : JobRecord → Bool
is_active r = not (is_inactive r.state)

-- `[r.job_key for r in rs if not r.state.is_inactive]`
abbrev pub active_keys : List JobRecord → List String
active_keys rs = map (λ r. r.job_key) (filter is_active rs)

abbrev pub chosen : String → Option (List Ref) → M (List JobRecord)
chosen id none = do jobs ← get_jobs id none; pure (filter (λ r. not (is_element r)) jobs)
chosen id (some refs) = resolve_refs id refs

-- `only=None` submits every job but the elements of arrays.
unfoldable pub submit_targets : String → Option (List Ref) → M (List JobRecord)
submit_targets id only = do
  targets ← chosen id only
  require (not (any is_element targets)) value_error
  require (not (is_empty targets)) (not_allowed submit id [])
  require (is_empty (active_keys targets)) (not_allowed submit id (active_keys targets))
  pure targets
