-- ===== src/Tests/Stores.antt =====
-- The properties of the states and of the store at concrete inputs.
use pyqt_lsf_job_manager.Store.Atomic.{IsInserted, store_add_jobs_atomic}
use pyqt_lsf_job_manager.Tests.Samples.{
  calls, job, js, stored, two_jobs, two_jobs-IsConsistent, two_jobs-jobset, two_jobs-record,
}
use pyqt_lsf_job_manager.Base.{
  List, String, [], false, get, inr, map, max, none, refl, some, string_key, true, values, ◌↔◌, ◌∷◌,
  ◌≡◌, ◌≢◌, ◌⊎◌,
}
use pyqt_lsf_job_manager.States.{
  JobRecord, JobState, is_inactive, is_on_lsf, lsf_stat_map, same_state, value,
}
use pyqt_lsf_job_manager.States.Laws.{get-lsf_stat_map, is_inactive_iff}
use pyqt_lsf_job_manager.Store.Effects.{Store, StoreError, err, key_error, ok}
use pyqt_lsf_job_manager.Store.Fields.{Field}
use pyqt_lsf_job_manager.Store.Memory.{
  jobs_of, stamp_created, stamp_updated, store_add_jobs, store_delete_jobs,
}
use pyqt_lsf_job_manager.Store.Update.{
  Guard, Spec, Summary, make_summary, next_record, summary, transition, transition_many,
}
use pyqt_lsf_job_manager.Store.Defaults.{default_delete_jobs, default_transition_many_impl}
use pyqt_lsf_job_manager.Store.Calls.{after_all, empty}
use pyqt_lsf_job_manager.Store.Consistent.{IsConsistent}
use pyqt_lsf_job_manager.Store.Tally.{size, sum_counts}
use pyqt_lsf_job_manager.Store.Sound.{after_all-IsConsistent, empty-IsConsistent}
use pyqt_lsf_job_manager.Store.Summaries.{summary-make_summary}
use pyqt_lsf_job_manager.Store.Writes.{OnlyWrites, transition-writes}
use pyqt_lsf_job_manager.Store.Batch.{store_delete_jobs-default, transition_many-default}

after_all-IsConsistent_example : IsConsistent (after_all calls empty)
after_all-IsConsistent_example = after_all-IsConsistent calls empty empty-IsConsistent

is_inactive_iff_example : (is_inactive JobState.lost ≡ true) ↔ (
    (is_on_lsf JobState.lost ≡ false)
    × (JobState.lost ≢ JobState.submitting)
    × (JobState.lost ≢ JobState.retry_wait))
is_inactive_iff_example = is_inactive_iff JobState.lost

get-lsf_stat_map_example : get (value JobState.exit) lsf_stat_map ≡ some JobState.exit
get-lsf_stat_map_example = get-lsf_stat_map JobState.exit (inr (inr refl))

abbrev specs : List Spec
specs =
    record { job_key = "b"; new_state = some JobState.done; guard = none; fields = [] }
    ∷ record { job_key = "c"; new_state = none; guard = none; fields = [] }
    ∷ []

transition_many-default_example :
    transition_many "s" specs 5 two_jobs ≡ default_transition_many_impl "s" specs 5 two_jobs
transition_many-default_example = transition_many-default "s" specs 5 two_jobs (refl, (refl, tt))

store_delete_jobs-default_example :
    store_delete_jobs "s" ("b" ∷ "c" ∷ []) two_jobs
    ≡ default_delete_jobs "s" ("b" ∷ "c" ∷ []) two_jobs
store_delete_jobs-default_example = store_delete_jobs-default "s" ("b" ∷ "c" ∷ []) two_jobs

abbrev batch : List JobRecord
batch = job "c" JobState.created ∷ job "b" JobState.created ∷ []

store_add_jobs_atomic_example :
    ((t : Store) × (store_add_jobs batch 5 two_jobs ≡ (ok (map (λ r. stamp_updated r 5) batch), t))
      × IsInserted 5 batch two_jobs t)
    ⊎ ((e : StoreError) × (store_add_jobs batch 5 two_jobs ≡ (err e, two_jobs)) × (e ≢ key_error))
store_add_jobs_atomic_example = store_add_jobs_atomic batch 5 two_jobs two_jobs-IsConsistent

summary-make_summary_example :
    (sm : Summary) × (summary "s" two_jobs ≡ (ok sm, two_jobs))
    × (sm.intended ≡ 3)
    × (sum_counts sm.by_state ≡ max 3 (size (jobs_of "s" two_jobs)))
    × ((key : String)
        → get key sm.by_state
          ≡ get key (make_summary (stamp_created js 1) (values (jobs_of "s" two_jobs))).by_state)
summary-make_summary_example =
    summary-make_summary "s" two_jobs (stamp_created js 1) two_jobs-IsConsistent two_jobs-jobset

abbrev finished : JobRecord
finished = next_record stored 0 5 JobState.done (Field.killed true ∷ [])

transition-writes_example :
    (t : Store) × (transition "s" "b" (some JobState.done) none (Field.killed true ∷ []) 5 two_jobs
      ≡ (ok (some finished), t))
    × (finished.revision ≡ 1)
    × OnlyWrites "s" "b" finished two_jobs t
transition-writes_example =
    transition-writes "s" "b" (some JobState.done) none (Field.killed true ∷ []) 5 two_jobs stored
      two_jobs-IsConsistent two_jobs-record refl refl

abbrev only_pend : Guard
only_pend = some (λ r. same_state r.state JobState.pend)
