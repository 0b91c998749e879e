-- ===== src/Tests/Losses.antt =====
-- The detection of lost submissions at a concrete store.
use pyqt_lsf_job_manager.Base.{
  List, String_discrete, [], false, get, has, inl, none, put, refl, some, string_key, true, ◌∷◌,
  ◌≡◌,
}
use pyqt_lsf_job_manager.States.{JobRecord, JobState, Time, value}
use pyqt_lsf_job_manager.Store.Effects.{Store}
use pyqt_lsf_job_manager.Store.Memory.{
  check_batch, get_job, get_jobset, put_all, stamp_updated, store_add_jobs, store_insert_jobset,
}
use pyqt_lsf_job_manager.Store.Update.{next_record, replace_rec, transition}
use pyqt_lsf_job_manager.Store.Records.{count_del, decrement, increment, put_rec}
use pyqt_lsf_job_manager.Store.Fields.{Field, replace}
use pyqt_lsf_job_manager.Store.Calls.{Call, add_jobs, after, after_all, empty, insert_jobset}
use pyqt_lsf_job_manager.Store.Consistent.{IsConsistent}
use pyqt_lsf_job_manager.Store.Invariant.{transition-Keeps}
use pyqt_lsf_job_manager.Store.Sound.{after_all-IsConsistent, empty-IsConsistent}
use pyqt_lsf_job_manager.Store.Writes.{record_at}
use pyqt_lsf_job_manager.JobSets.Manager.{detect_lost, is_candidate}
use pyqt_lsf_job_manager.JobSets.Losses.{detect_lost-Spares}
use pyqt_lsf_job_manager.Tests.Samples.{job, js}

abbrev submissions : List (Call × Time)
submissions = (insert_jobset js, 1) ∷ (add_jobs (job "a" JobState.submitting ∷ []), 2) ∷ []

abbrev sending : Store
sending = after_all submissions empty

-- A worker gets the id of the job after the detection has read the records.
abbrev gets_id : Store → Store
gets_id s = (transition "s" "a" (some JobState.pend) none (Field.job_id (some 8) ∷ []) 3 s).1

abbrev pending_job : JobRecord
pending_job =
    next_record (stamp_updated (job "a" JobState.submitting) 2) 0 3 JobState.pend
      (Field.job_id (some 8) ∷ [])

gets_id-IsConsistent : IsConsistent (gets_id sending)
gets_id-IsConsistent =
    transition-Keeps "s" "a" (some JobState.pend) none (Field.job_id (some 8) ∷ []) 3 sending
      (after_all-IsConsistent submissions empty empty-IsConsistent)

gets_id-record : record_at "s" "a" (gets_id sending) ≡ some pending_job
unfolding get put String_discrete after_all after empty store_insert_jobset store_add_jobs
    check_batch put_all put_rec increment get_jobset transition get_job replace_rec replace
    decrement count_del value
gets_id-record = refl

sending-jobset : has "s" sending.jobsets ≡ true
unfolding get put String_discrete after_all after empty store_insert_jobset store_add_jobs
    check_batch put_all put_rec increment get_jobset
sending-jobset = refl

is_sent : is_candidate pending_job ≡ false
unfolding replace
is_sent = refl

detect_lost-Spares_example :
    record_at "s" "a" (detect_lost "s" (λ s. s) gets_id 9 sending).1 ≡ some pending_job
detect_lost-Spares_example =
    detect_lost-Spares "s" "a" (λ s. s) gets_id 9 sending pending_job sending-jobset sending-jobset
      gets_id-IsConsistent gets_id-record (inl is_sent)
