-- ===== src/Tests/Marks.antt =====
-- The marks of a kill at a concrete store.
use pyqt_lsf_job_manager.Base.{
  List, String, String_discrete, [], get, if◌then◌else◌, map, put, refl, same_nat, same_option,
  some, string_key, true, values, ℕ, ◌∷◌, ◌≡◌,
}
use pyqt_lsf_job_manager.States.{JobRecord, JobState, Time, value}
use pyqt_lsf_job_manager.Store.Effects.{Store}
use pyqt_lsf_job_manager.Store.Memory.{
  check_batch, get_job, get_jobset, jobs_of, put_all, stamp_updated, store_add_jobs,
  store_insert_jobset,
}
use pyqt_lsf_job_manager.Store.Update.{replace_rec, transition}
use pyqt_lsf_job_manager.Store.Records.{count_del, decrement, increment, put_rec}
use pyqt_lsf_job_manager.Store.Fields.{replace}
use pyqt_lsf_job_manager.Store.Calls.{Call, add_jobs, after, after_all, empty, insert_jobset}
use pyqt_lsf_job_manager.Store.Consistent.{IsConsistent}
use pyqt_lsf_job_manager.Store.Sound.{after_all-IsConsistent, empty-IsConsistent}
use pyqt_lsf_job_manager.Store.Writes.{record_at}
use pyqt_lsf_job_manager.Killing.Marking.{mark_all, mark_killed, mark_one, same_job}
use pyqt_lsf_job_manager.Killing.Marked.{hits, killed_among, mark_killed-marks, marked_times}
use pyqt_lsf_job_manager.Tests.Samples.{job, js}

abbrev with_id : String → ℕ → JobRecord
with_id key n = let r = job key JobState.run in record r { job_id = some n }

abbrev on_lsf : List (Call × Time)
on_lsf = (insert_jobset js, 1) ∷ (add_jobs (with_id "a" 7 ∷ with_id "b" 8 ∷ []), 2) ∷ []

abbrev two_on_lsf : Store
two_on_lsf = after_all on_lsf empty

two_on_lsf-IsConsistent : IsConsistent two_on_lsf
two_on_lsf-IsConsistent = after_all-IsConsistent on_lsf empty empty-IsConsistent

two_on_lsf-record : record_at "s" "a" two_on_lsf ≡ some (stamp_updated (with_id "a" 7) 2)
unfolding get put String_discrete after_all after empty store_insert_jobset store_add_jobs
    check_batch put_all put_rec increment get_jobset
two_on_lsf-record = refl

abbrev target_of : JobRecord → String
target_of r = if same_option same_nat r.job_id (some 7) then "7" else "8"

abbrev snapshot : List JobRecord
snapshot = stamp_updated (with_id "a" 7) 2 ∷ stamp_updated (with_id "b" 8) 2 ∷ []

-- The accepted job is EXIT, and the one that is alive is left alone.
mark_killed_run :
    let t =
      (mark_killed true
        (some snapshot)
        target_of
        ("7" ∷ "8" ∷ [])
        (("s", "b") ∷ [])
        5
        two_on_lsf).1 in
    map value (map (λ r. r.state) (values (jobs_of "s" t))) ≡ "EXIT" ∷ "RUN" ∷ []
unfolding get put String_discrete after_all after empty store_insert_jobset store_add_jobs
    check_batch put_all put_rec increment get_jobset mark_killed mark_all mark_one same_job
    transition get_job replace_rec replace decrement count_del value
mark_killed_run = refl

mark_killed-marks_example :
    let chosen = killed_among target_of ("7" ∷ "8" ∷ []) (("s", "b") ∷ []) snapshot in
    record_at "s" "a"
      (mark_killed true (some snapshot) target_of ("7" ∷ "8" ∷ []) (("s", "b") ∷ []) 5 two_on_lsf).1
    ≡ some (
        marked_times true 5
          (hits (stamp_updated (with_id "a" 7) 2) chosen)
          (stamp_updated (with_id "a" 7) 2))
mark_killed-marks_example =
    mark_killed-marks true snapshot target_of ("7" ∷ "8" ∷ []) (("s", "b") ∷ []) 5 "s" "a"
      two_on_lsf (stamp_updated (with_id "a" 7) 2) two_on_lsf-IsConsistent two_on_lsf-record
