-- ===== src/Store/Defaults.antt =====
-- The bodies that lsfmgr/store/base.py gives a store which does not override them: one call for each
-- element, with the errors of a missing job or job set passed over, and its searches over all job sets.
use pyqt_lsf_job_manager.Base.{
  ℕ, String, Bool, false, Option, none, some, List, [], ◌∷◌, ◌++◌, Dict, put, string_key, filter,
  any, ◌==◌, is_empty, if◌then◌else◌,
}
use pyqt_lsf_job_manager.States.{JobRecord, JobSetRecord, Time, same_text}
use pyqt_lsf_job_manager.Store.Effects.{
  Store, Result, ok, err, jobset_not_found, job_not_found, value_error, key_error, not_allowed, M,
  ◌>>=◌, pure,
}
use pyqt_lsf_job_manager.Store.Memory.{store_delete_job, get_job, get_jobs, list_jobsets, cons_some}
use pyqt_lsf_job_manager.Store.Update.{Spec, transition}

-- `except (JobNotFoundError, JobSetNotFoundError): continue`
abbrev pub missing_to_none : {A : Type 0} → Result (Option A) → Result (Option A)
missing_to_none (ok o) = ok o
missing_to_none (err (jobset_not_found _)) = ok none
missing_to_none (err (job_not_found _ _)) = ok none
missing_to_none (err value_error) = err value_error
missing_to_none (err (not_allowed d i ks)) = err (not_allowed d i ks)
missing_to_none (err key_error) = err key_error

abbrev pub skip_missing : {A : Type 0} → M (Option A) → M (Option A)
skip_missing m s = let (r, t) = m s in (missing_to_none r, t)

-- `except JobNotFoundError: continue`
abbrev pub missing_job_to_none : {A : Type 0} → Result (Option A) → Result (Option A)
missing_job_to_none (err (job_not_found _ _)) = ok none
missing_job_to_none r = r

abbrev pub skip_missing_job : {A : Type 0} → M (Option A) → M (Option A)
skip_missing_job m s = let (r, t) = m s in (missing_job_to_none r, t)

unfoldable pub default_delete_jobs : String → List String → M (List JobRecord)
default_delete_jobs id [] = pure []
default_delete_jobs id (k ∷ ks) = do
  old ← skip_missing (store_delete_job id k)
  out ← default_delete_jobs id ks
  pure (cons_some old out)

unfoldable pub default_transition_many_impl : String → List Spec → Time → M (List JobRecord)
default_transition_many_impl id [] now = pure []
default_transition_many_impl id (spec ∷ specs) now = do
  new ← skip_missing_job (transition id spec.job_key spec.new_state spec.guard spec.fields now)
  out ← default_transition_many_impl id specs now
  pure (cons_some new out)

-- `out[key] = self.get_job(jobset_id, key)` for the keys that are there.
abbrev pub keep_found : String → Result JobRecord → Dict String JobRecord → Dict String JobRecord
keep_found k (ok r) out = put k r out
keep_found k (err _) out = out

unfoldable pub default_get_jobs_by_keys :
    String → List String → Store → Dict String JobRecord → Dict String JobRecord
default_get_jobs_by_keys id [] s out = out
default_get_jobs_by_keys id (k ∷ ks) s out =
    default_get_jobs_by_keys id ks s (keep_found k (get_job id k s).0 out)

-- The records of a job set for the search over all of them; one that is gone has none.
abbrev pub or_none : Result (List JobRecord) → List JobRecord
or_none (ok rs) = rs
or_none (err _) = []

unfoldable pub find_in : (JobRecord → Bool) → Store → List JobSetRecord → List JobRecord
find_in p s [] = []
find_in p s (js ∷ jss) = filter p (or_none (get_jobs js.jobset_id none s).0) ++ find_in p s jss

abbrev pub has_id : List ℕ → JobRecord → Bool
has_id ids r = elim r.job_id [ none ↦ false | some i ↦ any (λ j. j == i) ids ]

unfoldable pub find_jobs : List ℕ → Store → List JobRecord
find_jobs ids s = if is_empty ids then [] else find_in (has_id ids) s (list_jobsets s)

unfoldable pub find_jobs_by_keys : List String → Store → List JobRecord
find_jobs_by_keys ks s =
    if is_empty ks
    then []
    else find_in (λ r. any (λ k. same_text k r.job_key) ks) s (list_jobsets s)
