-- ===== src/Cluster/Scheduler.antt =====
-- mocklsf/scheduler.py: one cycle of the scheduler. The files of the output of the jobs are not
-- modelled.
use pyqt_lsf_job_manager.Base.{
  Bool, Dict, List, Option, String, [], any, false, filter, get, if◌then◌else◌, is_empty, is_some,
  keys, leb, ltb, nat_key, negsuc, none, or_default, pos, put, some, string_key, words, ℕ, ℤ, ◌&&◌,
  ◌++◌, ◌+◌, ◌-◌, ◌==◌, ◌||◌, ◌∷◌,
}
use pyqt_lsf_job_manager.States.{Time, same_text}
use pyqt_lsf_job_manager.Cluster.Jobs.{Job, Stat, is_finished, is_occupying, same_stat}
use pyqt_lsf_job_manager.Cluster.Database.{
  Database, Logged, dispatched, ended, goes_before, jobs_in_states, log_event, resumed, sort_by,
  suspended, update_guarded_many,
}

-- mocklsf/config.py: what the scheduler reads of it. `qprio` has the priorities of the queues.
pub record Config : Type 0 where
  pub hosts : Dict String ℕ
  pub qprio : Dict String ℕ
  pub max_dispatch : ℕ

abbrev pub used_on : String → Dict String ℕ → ℕ
used_on h used = or_default 0 (get h used)

abbrev pub occupy : String → ℕ → Dict String ℕ → Dict String ℕ
occupy h cpus used = put h (used_on h used + cpus) used

-- An empty name of a host counts as none.
abbrev pub count_job : Job → Dict String ℕ → Dict String ℕ
count_job j used = elim j.exec_host [
  | none ↦ used
  | some h ↦ if same_text h "" then used else occupy h j.num_cpus used
]

unfoldable pub active_by_host : Dict String ℕ → List Job → Dict String ℕ
active_by_host used [] = used
active_by_host used (j ∷ js) = active_by_host (count_job j used) js

-- The candidates, from the hosts that the job asked for.
abbrev pub candidates_of : Config → List String → List String
candidates_of c wanted =
    let filtered = filter (λ h. any (same_text h) wanted) (keys c.hosts) in
    if is_empty filtered then keys c.hosts else filtered

-- A host with its free slots, where the job fits.
abbrev pub room_on : Config → ℕ → Dict String ℕ → String → Option ℕ
room_on c cpus used h =
    let slots = or_default 0 (get h c.hosts) in
    if leb (used_on h used + cpus) slots then some (slots - used_on h used) else none

abbrev pub better : Option (String × ℕ) → String → ℕ → Option (String × ℕ)
better none h free = some (h, free)
better (some (b, best_free)) h free =
    if ltb best_free free then some (h, free) else some (b, best_free)

-- The loop that takes the host with the most free slots, the first of those with as many.
unfoldable pub best_host :
    Config → ℕ → Dict String ℕ → Option (String × ℕ) → List String → Option (String × ℕ)
best_host c cpus used best [] = best
best_host c cpus used best (h ∷ hs) =
    best_host c cpus used
      (elim (room_on c cpus used h) [ none ↦ best | some free ↦ better best h free ]) hs

unfoldable pub pick_host : Config → Job → Dict String ℕ → Option String
pick_host c j used =
    elim (best_host c j.num_cpus used none (candidates_of c (words j.requested_hosts))) [
      | none ↦ none
      | some (h, _) ↦ some h
    ]

unfoldable pub dispatch : Job → String → Time → Job
dispatch j host now = record j {
  stat = Stat.run;
  exec_host = some host;
  start_time = some now;
  finish_time = some (now + j.run_secs + j.suspend_secs);
}

abbrev pub is_zero : ℤ → Bool
is_zero (pos n) = n == 0
is_zero (negsuc n) = false

-- DONE has the exit code 0 and EXIT another one.
abbrev pub ended_code : Stat → ℤ → ℤ
ended_code Stat.exit code = if is_zero code then pos 1 else code
ended_code Stat.done code = pos 0
ended_code _ code = code

unfoldable pub finish : Job → Time → Job
finish j now = record j {
  stat = j.planned_outcome;
  finish_time = some now;
  exit_code = ended_code j.planned_outcome j.exit_code;
}

abbrev pub is_over : Job → Time → Bool
is_over j now = elim j.finish_time [ none ↦ false | some t ↦ leb t now ]

-- The planned interval of suspension.
abbrev pub in_suspension : Job → Time → Bool
in_suspension j now = ltb 0 j.suspend_secs && elim j.start_time [
  | none ↦ false
  | some t ↦ leb (t + j.suspend_at) now && ltb now (t + j.suspend_at + j.suspend_secs)
]

-- One turn of the first loop: the job as it is to be, if it changes.
unfoldable pub advance : Time → Job → Option Job
advance now j =
    if same_stat j.stat Stat.ususp
    then none
    else if is_over j now
    then some (finish j now)
    else let stat = if in_suspension j now then Stat.ssusp else Stat.run in
      if same_stat stat j.stat then none else some (record j { stat = stat })

unfoldable pub advance_all : Time → List Job → List (Job × Job)
advance_all now [] = []
advance_all now (j ∷ js) =
    let rest = advance_all now js in elim (advance now j) [ none ↦ rest | some j' ↦ (j', j) ∷ rest ]

abbrev pub event_of : Time → Job → Job → Logged
event_of now j prev = record {
  job_id = j.job_id;
  array_index = j.array_index;
  ts = now;
  kind =
      if same_stat prev.stat Stat.pend
      then dispatched (or_default "" j.exec_host)
      else if is_finished j.stat
      then ended j.stat j.exit_code
      else if same_stat j.stat Stat.ssusp
      then suspended
      else resumed;
}

unfoldable pub log_all : Time → List (Job × Job) → Database → Database
log_all now [] d = d
log_all now ((j, prev) ∷ applied) d = log_all now applied (log_event (event_of now j prev) d)

-- Only the changes that took effect are told.
unfoldable pub apply_transitions : Time → List (Job × Job) → Database → Database
apply_transitions now changed d =
    let (applied, rows) = update_guarded_many changed d.rows in
    log_all now applied (record d { rows = rows })

-- Higher priority first, then the order of submission.
abbrev pub prio : Config → Job → ℕ
prio c j = or_default 0 (get j.queue c.qprio)

abbrev pub queued_before : Config → Job → Job → Bool
queued_before c a b = ltb (prio c b) (prio c a) || (prio c a == prio c b && goes_before a b)

abbrev pub count_element : Job → Dict ℕ ℕ → Dict ℕ ℕ
count_element j counts =
    if is_some j.array_index
    then put j.job_id (or_default 0 (get j.job_id counts) + 1) counts
    else counts

unfoldable pub count_elements : Dict ℕ ℕ → List Job → Dict ℕ ℕ
count_elements counts [] = counts
count_elements counts (j ∷ js) = count_elements (count_element j counts) js

-- What the second loop carries along.
pub record Round : Type 0 where
  pub used : Dict String ℕ
  pub array_active : Dict ℕ ℕ
  pub dispatched_count : ℕ
  pub changed : List (Job × Job)

-- Too young, or an element whose array is at its limit.
abbrev pub must_wait : Time → Job → Round → Bool
must_wait now j r =
    ltb now (j.submit_time + j.pend_secs)
    || (ltb 0 j.array_limit && leb j.array_limit (or_default 0 (get j.job_id r.array_active)))

abbrev pub started : Time → Job → String → Round → Round
started now j host r = record {
  used = occupy host j.num_cpus r.used;
  array_active = count_element j r.array_active;
  dispatched_count = r.dispatched_count + 1;
  changed = r.changed ++ (dispatch j host now, j) ∷ [];
}

abbrev pub place : Config → Time → Job → Round → Round
place c now j r =
    if must_wait now j r
    then r
    else elim (pick_host c j r.used) [ none ↦ r | some host ↦ started now j host r ]

unfoldable pub dispatch_all : Config → Time → List Job → Round → Round
dispatch_all c now [] r = r
dispatch_all c now (j ∷ js) r =
    let rest = dispatch_all c now js (place c now j r) in
    if leb c.max_dispatch r.dispatched_count then r else rest

unfoldable pub tick : Config → Time → Database → Database
tick c now d =
    let d₁ = apply_transitions now (advance_all now (jobs_in_states is_occupying d)) d in
    let still_active = jobs_in_states is_occupying d₁ in
    let pend = sort_by (queued_before c) (jobs_in_states (λ s. same_stat s Stat.pend) d₁) in
    let r = dispatch_all c now pend (record {
      used = active_by_host [] still_active;
      array_active = count_elements [] still_active;
      dispatched_count = 0;
      changed = [];
    }) in
    apply_transitions now r.changed d₁
