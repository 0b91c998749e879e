-- ===== src/Tests/Edits.antt =====
-- The properties of the edits of job sets at concrete inputs.
use pyqt_lsf_job_manager.Base.{String_discrete, get, inl, none, put}
use pyqt_lsf_job_manager.States.{value}
use pyqt_lsf_job_manager.Store.Memory.{
  check_batch, get_job, get_jobset, put_all, store_add_jobs, store_insert_jobset,
}
use pyqt_lsf_job_manager.Store.Update.{replace_rec, transition}
use pyqt_lsf_job_manager.Store.Records.{count_del, decrement, increment, put_rec}
use pyqt_lsf_job_manager.Store.Fields.{replace}
use pyqt_lsf_job_manager.Store.Calls.{after, after_all, empty}
use pyqt_lsf_job_manager.Store.Consistent.{IsConsistent}
use pyqt_lsf_job_manager.Store.Invariant.{transition-Keeps}
use pyqt_lsf_job_manager.Base.Dicts.{is_some}
use pyqt_lsf_job_manager.States.Laws.{same_text_iff}
use pyqt_lsf_job_manager.States.{same_text}
use pyqt_lsf_job_manager.Base.{Bool-cases, String, arith, inr}
use pyqt_lsf_job_manager.JobSets.Choices.{is_member}
use pyqt_lsf_job_manager.Base.{
  All, Bool, List, [], false, filter, has, is_empty, not, refl, some, string_key, true, values, ◌∷◌,
  ◌≡◌, ◌≢◌, ◌⊎◌,
}
use pyqt_lsf_job_manager.Store.Writes.{record_at}
use pyqt_lsf_job_manager.JobSets.Edits.{IsEdit, local_edit_jobs_atomic}
use pyqt_lsf_job_manager.States.{JobRecord, JobState, is_terminal, same_state}
use pyqt_lsf_job_manager.Store.Effects.{
  Store, StoreError, err, not_allowed, ok, remove, remove_jobset,
}
use pyqt_lsf_job_manager.Store.Memory.{jobs_of, stamp_created}
use pyqt_lsf_job_manager.Store.Update.{Spec, transition_many}
use pyqt_lsf_job_manager.Store.Untouched.{transition_many-Spares}
use pyqt_lsf_job_manager.JobSets.Choices.{active_keys}
use pyqt_lsf_job_manager.JobSets.Manager.{
  Policy, delete_jobs, local_edit_jobs, local_remove_jobs, local_remove_jobset, record_keys,
}
use pyqt_lsf_job_manager.JobSets.Removals.{
  IsRemoval, delete_jobs-IsRemoval, local_remove_jobs_atomic, local_remove_jobset_guarded,
}
use pyqt_lsf_job_manager.Tests.Samples.{
  job, js, stored, two_jobs, two_jobs-IsConsistent, two_jobs-jobset, two_jobs-record,
}

abbrev edits : List JobRecord
edits = job "a" JobState.created ∷ job "d" JobState.created ∷ []

-- A worker sees the end of the other job between the check of an edit and its writes.
abbrev ends_b : Store → Store
ends_b s = (transition "s" "b" (some JobState.done) none [] 6 s).1

ends_b-IsConsistent : IsConsistent (ends_b two_jobs)
ends_b-IsConsistent =
    transition-Keeps "s" "b" (some JobState.done) none [] 6 two_jobs two_jobs-IsConsistent

ends_b-jobset : get "s" (ends_b two_jobs).jobsets ≡ some (stamp_created js 1)
unfolding get put String_discrete after_all after empty store_insert_jobset store_add_jobs
    check_batch put_all put_rec increment get_jobset transition get_job replace_rec replace
    decrement count_del value
ends_b-jobset = refl

has_a : is_some (record_at "s" "a" (ends_b two_jobs)) ≡ is_some (record_at "s" "a" two_jobs)
unfolding get put String_discrete after_all after empty store_insert_jobset store_add_jobs
    check_batch put_all put_rec increment get_jobset transition get_job replace_rec replace
    decrement count_del value
has_a = refl

has_d : is_some (record_at "s" "d" (ends_b two_jobs)) ≡ is_some (record_at "s" "d" two_jobs)
unfolding get put String_discrete after_all after empty store_insert_jobset store_add_jobs
    check_batch put_all put_rec increment get_jobset transition get_job replace_rec replace
    decrement count_del value
has_d = refl

edits-stand :
    (k : String)
    → is_member k (record_keys edits) ≡ true
    → is_some (record_at "s" k (ends_b two_jobs)) ≡ is_some (record_at "s" k two_jobs)
edits-stand k m = elim (Bool-cases (same_text k "a")) [
  | inl e ↦ rw ((same_text_iff k "a").0 e) has_a
  | inr e ↦ rw ((same_text_iff k "d").0 (ground arith)) has_d
]

local_edit_jobs_atomic_example :
    ((out : List JobRecord) × (t : Store) × (local_edit_jobs "s" edits Policy.upsert false ends_b 7
          two_jobs
        ≡ (ok out, t))
      × IsEdit "s" edits false 7 out two_jobs (ends_b two_jobs) t)
    ⊎ ((e : StoreError) × (local_edit_jobs "s" edits Policy.upsert false ends_b 7 two_jobs
          ≡ (err e, two_jobs)))
local_edit_jobs_atomic_example =
    local_edit_jobs_atomic "s" edits Policy.upsert false ends_b 7 two_jobs (stamp_created js 1)
      (stamp_created js 1) two_jobs-IsConsistent two_jobs-jobset ends_b-IsConsistent ends_b-jobset
      refl edits-stand

local_remove_jobs_atomic_example :
    ((out : List JobRecord) × (t : Store) × (targets : List JobRecord) × (local_remove_jobs "s"
          ("a" ∷ [])
          false
          ends_b
          two_jobs
        ≡ (ok out, t))
      × (record_keys targets ≡ "a" ∷ [])
      × All (λ r. record_at "s" r.job_key two_jobs ≡ some r) targets
      × IsRemoval "s" targets false (ends_b two_jobs) t)
    ⊎ ((e : StoreError) × (u : Store) × (local_remove_jobs "s" ("a" ∷ []) false ends_b two_jobs
          ≡ (err e, u))
        × ((u ≡ two_jobs) ⊎ (u ≡ ends_b two_jobs)))
local_remove_jobs_atomic_example =
    local_remove_jobs_atomic "s" ("a" ∷ []) false ends_b two_jobs (stamp_created js 1)
      (stamp_created js 1) two_jobs-IsConsistent two_jobs-jobset ends_b-IsConsistent ends_b-jobset
      refl

abbrev running_b : List JobRecord
running_b = job "b" JobState.run ∷ []

delete_jobs-IsRemoval_example :
    ((out : List JobRecord) × (t : Store) × (delete_jobs "s" running_b true two_jobs ≡ (ok out, t))
      × IsRemoval "s" running_b true two_jobs t)
    ⊎ ((delete_jobs "s" running_b true two_jobs
          ≡ (err (not_allowed remove "s" (active_keys running_b)), two_jobs))
        × (◌≡◌ {A = Bool} true false)
        × (active_keys running_b ≢ []))
delete_jobs-IsRemoval_example =
    delete_jobs-IsRemoval "s" running_b true two_jobs (stamp_created js 1) two_jobs-IsConsistent
      two_jobs-jobset refl

local_remove_jobset_guarded_example :
    let running = filter (λ r. not (is_terminal r.state)) (values (jobs_of "s" two_jobs)) in
    ((t : Store) × (local_remove_jobset "s" false two_jobs ≡ (ok (stamp_created js 1), t))
      × (has "s" t.jobsets ≡ false)
      × (has "s" t.jobs ≡ false)
      × ((◌≡◌ {A = Bool} false true) ⊎ (is_empty running ≡ true)))
    ⊎ ((local_remove_jobset "s" false two_jobs
          ≡ (err (not_allowed remove_jobset "s" (record_keys running)), two_jobs))
        × (◌≡◌ {A = Bool} false false)
        × (is_empty running ≡ false))
local_remove_jobset_guarded_example =
    local_remove_jobset_guarded "s" false two_jobs (stamp_created js 1) two_jobs-jobset

abbrev refused_specs : List Spec
refused_specs =
    record {
      job_key = "b";
      new_state = some JobState.lost;
      guard = some (λ r. same_state r.state JobState.pend);
      fields = [];
    }
    ∷ []

transition_many-Spares_example :
    record_at "s" "b" (transition_many "s" refused_specs 9 two_jobs).1 ≡ some stored
transition_many-Spares_example =
    transition_many-Spares "s" "b" refused_specs 9 two_jobs stored two_jobs-IsConsistent
      two_jobs-record ((refl, λ _. refl), tt)
