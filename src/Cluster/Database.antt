-- ===== src/Cluster/Database.antt =====
-- mocklsf/db.py: the tables of jobs, of events and of counters. A statement of SQL is one step.
use pyqt_lsf_job_manager.Base.{
  Bool, List, Option, String, [], any, filter, if◌then◌else◌, leb, ltb, map, same_int, same_nat,
  same_option, string_key, ℕ, ℤ, ◌&&◌, ◌++◌, ◌+◌, ◌==◌, ◌||◌, ◌∷◌,
}
use pyqt_lsf_job_manager.States.{Time, same_text}
use pyqt_lsf_job_manager.Cluster.Jobs.{Job, Stat, same_stat}

pub data Kind : Type 0 where
  dispatched : String → Kind
  ended : Stat → ℤ → Kind
  suspended resumed : Kind

pub record Logged : Type 0 where
  pub job_id : ℕ
  pub array_index : Option ℕ
  pub ts : Time
  pub kind : Kind

pub record Database : Type 0 where
  pub rows : List Job
  pub events : List Logged
  pub counter : ℕ

unfoldable pub next_job_id : Database → ℕ × Database
next_job_id d = (d.counter + 1, record d { counter = d.counter + 1 })

-- `ORDER BY submit_time, row_id`
abbrev pub goes_before : Job → Job → Bool
goes_before a b =
    ltb a.submit_time b.submit_time || (a.submit_time == b.submit_time && leb a.row_id b.row_id)

unfoldable pub insert_by : (Job → Job → Bool) → Job → List Job → List Job
insert_by before a [] = a ∷ []
insert_by before a (b ∷ bs) = if before a b then a ∷ b ∷ bs else b ∷ insert_by before a bs

unfoldable pub sort_by : (Job → Job → Bool) → List Job → List Job
unfolding insert_by
sort_by before [] = []
sort_by before (a ∷ as') = insert_by before a (sort_by before as')

unfoldable pub jobs_in_states : (Stat → Bool) → Database → List Job
jobs_in_states p d = sort_by goes_before (filter (λ j. p j.stat) d.rows)

-- The guard of the compare-and-set: the row of the job, with the columns as they were read.
unfoldable pub is_as_read : Job → Job → Bool
is_as_read prev row =
    row.row_id == prev.row_id
    && same_stat row.stat prev.stat
    && same_option same_text row.exec_host prev.exec_host
    && same_option same_nat row.start_time prev.start_time
    && same_option same_nat row.finish_time prev.finish_time
    && same_int row.exit_code prev.exit_code
    && row.pend_secs == prev.pend_secs
    && row.susp_since == prev.susp_since

-- The columns that the scheduler writes.
abbrev pub with_columns : Job → Job → Job
with_columns j row = record row {
  stat = j.stat;
  exec_host = j.exec_host;
  start_time = j.start_time;
  finish_time = j.finish_time;
  exit_code = j.exit_code;
}

unfoldable pub update_guarded : Job → Job → List Job → List Job
update_guarded j prev = map (λ row. if is_as_read prev row then with_columns j row else row)

-- The pairs that took effect come back, in their order.
unfoldable pub update_guarded_many : List (Job × Job) → List Job → List (Job × Job) × List Job
update_guarded_many [] rows = ([], rows)
update_guarded_many ((j, prev) ∷ pairs) rows =
    let (applied, rows') = update_guarded_many pairs (update_guarded j prev rows) in
    ((if any (is_as_read prev) rows then (j, prev) ∷ applied else applied), rows')

unfoldable pub log_event : Logged → Database → Database
log_event e d = record d { events = d.events ++ e ∷ [] }
