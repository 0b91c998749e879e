-- ===== src/Store/Calls.antt =====
-- Sequences of calls of the methods of InMemoryStore (lsfmgr/store/memory.py), in the order in which
-- its lock lets them through.
use pyqt_lsf_job_manager.Base.{String, Option, List, [], ◌∷◌, string_key}
use pyqt_lsf_job_manager.States.{JobState, Time, JobRecord, JobSetRecord}
use pyqt_lsf_job_manager.Store.Effects.{Store}
use pyqt_lsf_job_manager.Store.Fields.{Field}
use pyqt_lsf_job_manager.Store.Memory.{
  store_insert_jobset, update_jobset, store_delete_jobset, store_add_job, store_add_jobs,
  store_delete_job, store_delete_jobs,
}
use pyqt_lsf_job_manager.Store.Update.{update_job, Guard, transition, Spec, transition_many}

-- The methods that write.
pub data Call : Type 0 where
  insert_jobset : JobSetRecord → Call
  put_jobset : JobSetRecord → Call
  delete_jobset : String → Call
  add_job : JobRecord → Call
  add_jobs : List JobRecord → Call
  delete_job : String → String → Call
  delete_jobs : String → List String → Call
  write_job : JobRecord → Call
  transit : String → String → Option JobState → Guard → List Field → Call
  transit_many : String → List Spec → Call

-- The store after a call, whether it returned or raised.
unfoldable pub after : Call → Time → Store → Store
after (insert_jobset r) now s = (store_insert_jobset r now s).1
after (put_jobset r) now s = (update_jobset r s).1
after (delete_jobset id) now s = (store_delete_jobset id s).1
after (add_job r) now s = (store_add_job r now s).1
after (add_jobs rs) now s = (store_add_jobs rs now s).1
after (delete_job id key) now s = (store_delete_job id key s).1
after (delete_jobs id ks) now s = (store_delete_jobs id ks s).1
after (write_job r) now s = (update_job r now s).1
after (transit id key st g fs) now s = (transition id key st g fs now s).1
after (transit_many id specs) now s = (transition_many id specs now s).1

-- Each call comes with the time at which it runs.
unfoldable pub after_all : List (Call × Time) → Store → Store
after_all [] s = s
after_all ((c, now) ∷ cs) s = after_all cs (after c now s)

unfoldable pub empty : Store
empty = record { jobsets = []; jobs = []; counts = [] }
