-- ===== src/Statuses/Ledger.antt =====
-- lsfmgr/internal_status.py: the ledger of the statuses, into which the answers are merged.
use pyqt_lsf_job_manager.Base.{
  Bool, Dict, List, Option, [], any, false, filter, get, if◌then◌else◌, index_key, is_empty, leb,
  ltb, map, nat_key, none, not, or_default, pop, put, same_nat, same_option, some, string_key, ℕ,
  ◌&&◌, ◌++◌, ◌+◌, ◌-◌, ◌/◌, ◌==◌, ◌||◌, ◌∷◌,
}
use pyqt_lsf_job_manager.States.{JobState, JobStatus, Time, is_on_lsf, same_state}
use pyqt_lsf_job_manager.Statuses.Source.{Elements, Entry, Source}

abbrev pub is_tracked : ℕ → List ℕ → Bool
is_tracked n = any (λ m. m == n)

-- `_register_interest`, with whether an id is new.
unfoldable pub register_interest : List ℕ → Source → Bool × Source
register_interest ids s =
    let added = filter (λ n. not (is_tracked n s.interest)) ids in
    (not (is_empty added), record s { interest = s.interest ++ added })

unfoldable pub pop_all : List ℕ → Dict ℕ Elements → Dict ℕ Elements
pop_all [] m = m
pop_all (n ∷ ids) m = pop_all ids (pop n m)

unfoldable pub forget : List ℕ → Source → Source
unfolding pop_all
forget ids s = record s {
  interest = filter (λ n. not (is_tracked n ids)) s.interest;
  ledger = pop_all ids s.ledger;
}

abbrev pub elements : ℕ → Dict ℕ Elements → Elements
elements n m = or_default [] (get n m)

-- The entry of a job or of an element of an array.
abbrev pub entry_at : ℕ → Option ℕ → Dict ℕ Elements → Option Entry
entry_at n i m = get i (elements n m)

abbrev pub is_newer : Option Entry → ℕ → Bool
is_newer none fetched = false
is_newer (some e) fetched = ltb fetched e.fetched_at

-- One turn of the loop of `_merge_locked`: an entry of a later fetch stays.
unfoldable pub merge_status : List ℕ → Time → ℕ → JobStatus → Dict ℕ Elements → Dict ℕ Elements
merge_status interest now fetched st m =
    let elems = elements st.job_id m in
    if not (is_tracked st.job_id interest)
    then m
    else if is_newer (get st.array_index elems) fetched
    then put st.job_id elems m
    else put st.job_id
        (put st.array_index (record { status = st; seen_at = now; fetched_at = fetched }) elems) m

unfoldable pub merge_statuses :
    List ℕ → Time → ℕ → List JobStatus → Dict ℕ Elements → Dict ℕ Elements
unfolding merge_status
merge_statuses interest now fetched [] m = m
merge_statuses interest now fetched (st ∷ sts) m =
    merge_statuses interest now fetched sts (merge_status interest now fetched st m)

-- The statuses of the answer that the loop writes.
unfoldable pub fresh_statuses :
    List ℕ → Time → ℕ → List JobStatus → Dict ℕ Elements → List JobStatus
unfolding merge_status
fresh_statuses interest now fetched [] m = []
fresh_statuses interest now fetched (st ∷ sts) m =
    let rest = fresh_statuses interest now fetched sts (merge_status interest now fetched st m) in
    if is_tracked st.job_id interest && not (is_newer (entry_at st.job_id st.array_index m) fetched)
    then st ∷ rest
    else rest

-- `int((now - start).total_seconds())`, in microseconds before; `none` if it is negative.
abbrev pub elapsed : Time → Time → Option ℕ
elapsed now start =
    if leb start now
    then some ((now - start) / 1000000)
    else if ltb (start - now) 1000000
    then some 0
    else none

abbrev pub with_run_time : Option ℕ → Entry → Entry
with_run_time none e = e
with_run_time (some secs) e =
    if same_option same_nat (some secs) e.status.run_time_s
    then e
    else record e { status = record e.status { run_time_s = some secs } }

-- The elapsed time of a job on LSF that the answer does not have.
abbrev pub refreshed : Time → Entry → Entry
refreshed now e = elim e.status.start_time [
  | none ↦ e
  | some start ↦ if is_on_lsf e.status.state then with_run_time (elapsed now start) e else e
]

abbrev pub is_fresh : ℕ → Option ℕ → List JobStatus → Bool
is_fresh n i = any (λ st. st.job_id == n && same_option same_nat st.array_index i)

abbrev pub refresh_elements : Time → List JobStatus → ℕ → Elements → Elements
refresh_elements now sts n = map (λ e. (e.0, if is_fresh n e.0 sts then e.1 else refreshed now e.1))

-- `_refresh_runtimes_locked`, but for the keys of some statuses.
unfoldable pub refresh_runtimes : Time → List JobStatus → Dict ℕ Elements → Dict ℕ Elements
refresh_runtimes now sts = map (λ e. (e.0, refresh_elements now sts e.0 e.1))

abbrev pub ended_long_ago : ℕ → Time → Entry → Bool
ended_long_ago retention now e = ltb (or_default e.seen_at e.status.finish_time + retention) now

-- `_expired`
unfoldable pub is_expired : ℕ → Time → Entry → Bool
is_expired retention now e =
    (same_state e.status.state JobState.done || same_state e.status.state JobState.exit)
    && ended_long_ago retention now e

abbrev pub live_entries : ℕ → Time → Elements → Elements
live_entries retention now = filter (λ e. not (is_expired retention now e.1))

-- The loop of `_prune_locked`: a job with no entry left leaves the ledger and the interest.
unfoldable pub prune_jobs : ℕ → Time → Dict ℕ Elements → Dict ℕ Elements × List ℕ
unfolding is_expired
prune_jobs retention now [] = ([], [])
prune_jobs retention now ((n, elems) ∷ m) =
    let (rest, gone) = prune_jobs retention now m in
    let left = live_entries retention now elems in
    if is_empty left then (rest, n ∷ gone) else ((n, left) ∷ rest, gone)

abbrev pub prune_min_interval : ℕ
prune_min_interval = 60000000

abbrev pub too_soon : ℕ → Option ℕ → Bool
too_soon now none = false
too_soon now (some last) = ltb now (last + prune_min_interval)

unfoldable pub prune : ℕ → Time → Source → Source
unfolding prune_jobs
prune monotonic now s =
    let (left, gone) = prune_jobs s.retention now s.ledger in
    if s.retention == 0 || too_soon monotonic s.last_prune_at then s else record s {
      last_prune_at = some monotonic;
      ledger = left;
      interest = filter (λ n. not (is_tracked n gone)) s.interest;
    }

-- `_merge_locked`
unfoldable pub merge : Time → ℕ → List JobStatus → Source → Source
unfolding merge_statuses refresh_runtimes fresh_statuses
merge now fetched sts s =
    let merged = merge_statuses s.interest now fetched sts s.ledger in
    record s {
      ledger =
          if s.track_runtime && not (elim s.last_fetch_at [ none ↦ false | some t ↦ ltb fetched t ])
          then refresh_runtimes now (fresh_statuses s.interest now fetched sts s.ledger) merged
          else merged;
    }

-- What `statuses_by_ids` reads after a fetch that went well.
unfoldable pub read_statuses : List ℕ → Dict ℕ Elements → List JobStatus
read_statuses [] m = []
read_statuses (n ∷ ids) m = map (λ e. e.1.status) (elements n m) ++ read_statuses ids m
