-- ===== src/Statuses/Fetching.antt =====
-- lsfmgr/internal_status.py: fetches by the callbacks, one at a time but for those that do not return.
-- What a callback gives is an argument: the statuses that parse_internal_jobs makes of it, or `none` if
-- it raises or cannot be read.
use pyqt_lsf_job_manager.Base.{
  Bool, List, Option, [], false, filter, if◌then◌else◌, is_some, leb, ltb, none, not, some,
  string_key, true, ℕ, ◌&&◌, ◌+◌, ◌-◌, ◌==◌, ◌||◌, ◌∷◌,
}
use pyqt_lsf_job_manager.States.{JobStatus, Time}
use pyqt_lsf_job_manager.Statuses.Source.{Source, is_after, note_outcome, reached}
use pyqt_lsf_job_manager.Statuses.Ledger.{
  is_tracked, merge, prune, read_statuses, register_interest,
}

-- How far the thread of a fetch is, and what it has at its end, with whether the spare callback gave it.
pub data Phase : Type 0 where
  spawned in_primary in_failover : Phase
  ending : Option (List JobStatus) → Bool → Phase

-- The thread of a fetch: its token, the callback that it begins with, and the clocks at its start.
pub record Fetch : Type 0 where
  pub token : ℕ
  pub use_failover : Bool
  pub at : ℕ
  pub now : Time
  pub phase : Phase

pub record System : Type 0 where
  pub source : Source
  pub fetches : List Fetch

abbrev pub max_inflight : ℕ
max_inflight = 3

-- `_start_fetch_locked`
unfoldable pub start_fetch : ℕ → Time → System → System
start_fetch monotonic now y =
    let s = y.source in
    record {
      source = record s {
        fetching = true;
        fetch_token = s.next_token;
        next_token = s.next_token + 1;
        fetch_deadline = some (monotonic + s.wait_timeout);
        inflight = s.inflight + 1;
      };
      fetches =
          record {
            token = s.next_token;
            use_failover = s.has_failover && ltb 0 s.primary_unreturned;
            at = monotonic;
            now = now;
            phase = spawned;
          }
          ∷ y.fetches;
    }

abbrev pub is_due : ℕ → Option ℕ → Bool
is_due monotonic none = false
is_due monotonic (some deadline) = leb deadline monotonic

-- `_start_or_takeover_locked`: is a fetch on its way?
unfoldable pub start_or_takeover : ℕ → Time → System → Bool × System
unfolding start_fetch note_outcome
start_or_takeover monotonic now y =
    let s = y.source in
    if not s.fetching
    then (true, start_fetch monotonic now y)
    else if not (is_due monotonic s.fetch_deadline)
    then (true, y)
    else if leb max_inflight s.inflight
    then (false, record y { source = note_outcome monotonic false false s })
    else (true, start_fetch monotonic now y)

abbrev pub at_phase : Phase → Fetch → System → System
at_phase p f y = record y { fetches = record f { phase = p } ∷ y.fetches }

-- The parse keeps the ids of interest at the return of the callback.
abbrev pub attempt : Option (List JobStatus) → Source → Option (List JobStatus)
attempt none s = none
attempt (some sts) s = some (filter (λ st. is_tracked st.job_id s.interest) sts)

-- The thread begins with one of the callbacks.
unfoldable pub begin_fetch : Fetch → System → System
begin_fetch f y =
    if f.use_failover
    then at_phase in_failover f y
    else at_phase in_primary f (record y {
      source = record y.source { primary_unreturned = y.source.primary_unreturned + 1 };
    })

abbrev pub after_primary : Option (List JobStatus) → Bool → Phase
after_primary none true = in_failover
after_primary none false = ending none false
after_primary (some sts) _ = ending (some sts) false

-- `_attempt_primary` returns: the spare callback is asked if it raised.
unfoldable pub return_primary : Option (List JobStatus) → Fetch → System → System
return_primary answer f y =
    at_phase (after_primary (attempt answer y.source) y.source.has_failover) f (record y {
      source = record y.source { primary_unreturned = y.source.primary_unreturned - 1 };
    })

unfoldable pub return_failover : Option (List JobStatus) → Fetch → System → System
return_failover answer f y =
    let got = attempt answer y.source in at_phase (ending got (f.use_failover || is_some got)) f y

-- The time of the last fetch whose answer came does not go back.
abbrev pub noted : ℕ → Source → Source
noted at s = record s {
  last_fetch_at = if is_after at s.last_fetch_at then some at else s.last_fetch_at;
}

-- The answer goes into the ledger.
abbrev pub take_answer : Option (List JobStatus) → Fetch → Source → Source
take_answer none f s = s
take_answer (some sts) f s = prune f.at f.now (noted f.at (merge f.now f.at sts s))

-- A fetch that was taken over leaves the books of the newer one alone.
abbrev pub close_books : Fetch → Source → Source
close_books f s =
    if s.fetch_token == f.token
    then record s { fetching = false; fetch_deadline = none; gen = s.gen + 1 }
    else s

-- The end of `_fetch_worker`. The thread is no more.
unfoldable pub end_fetch : Option (List JobStatus) → Bool → Fetch → System → System
unfolding merge prune note_outcome
end_fetch answer by_failover f y = record y {
  source =
      note_outcome f.at (is_some answer) by_failover (
        close_books f
          (take_answer answer f (record y.source { inflight = y.source.inflight - 1 })));
}

-- What a waiting caller sees: the time it is, whether it was notified, and the system after what
-- the others did in the meantime.
pub record Wake : Type 0 where
  pub monotonic : ℕ
  pub notified : Bool
  pub meanwhile : System → System

-- `_wait_once_locked`; `none` is that the caller looks again.
unfoldable pub wait_once : ℕ → ℕ → ℕ → Wake → System → Option Bool × System
unfolding note_outcome
wait_once monotonic deadline gen w y₀ =
    let y = if leb deadline monotonic then y₀ else w.meanwhile y₀ in
    if leb deadline monotonic || not w.notified
    then (some false, record y { source = note_outcome w.monotonic false false y.source })
    else if y.source.closed
    then (some false, y)
    else ((if y.source.gen == gen then none else some true), y)

-- What follows from one wait, or `none` if the loop goes on.
abbrev pub decide : Bool → ℕ → Option ℕ → Option Bool → Source → Option Bool
decide fresh min_at before none s = none
decide fresh min_at before (some false) s = some false
decide fresh min_at before (some true) s =
    if not (elim s.last_fetch_at [ none ↦ false | some t ↦ is_after t before ])
    then some false
    else if reached s.last_fetch_at min_at || not fresh
    then some true
    else none

-- The loop of `_ensure_fetched`, over the times at which the caller wakes; `none` is that it still
-- waits when they are used up.
unfoldable pub ensure_loop : Bool → ℕ → ℕ → ℕ → Time → List Wake → System → Option Bool × System
unfolding start_or_takeover wait_once
ensure_loop fresh min_at deadline monotonic now [] y = (none, y)
ensure_loop fresh min_at deadline monotonic now (w ∷ ws) y =
    let (going, y') = start_or_takeover monotonic now y in
    let (came, y'') = wait_once monotonic deadline y'.source.gen w y' in
    let verdict = decide fresh min_at y'.source.last_fetch_at came y''.source in
    let rest = ensure_loop fresh min_at deadline w.monotonic now ws y'' in
    if y.source.closed
    then (some false, y)
    else if reached y.source.last_fetch_at min_at
    then (some true, y)
    else if not going
    then (some false, y')
    else elim verdict [ none ↦ rest | some b ↦ (some b, y'') ]

unfoldable pub ensure_fetched : Bool → ℕ → Time → List Wake → System → Option Bool × System
unfolding ensure_loop
ensure_fetched fresh started now ws y =
    ensure_loop fresh (if fresh then started else started - y.source.refresh_min)
      (started + y.source.wait_timeout) started now ws y

-- `statuses_by_ids`: what is found, and the ids on which nothing is decided.
unfoldable pub statuses_by_ids :
    List ℕ → Bool → ℕ → Time → List Wake → System → Option (List JobStatus × List ℕ) × System
unfolding ensure_fetched register_interest read_statuses
statuses_by_ids [] fresh started now ws y = (some ([], []), y)
statuses_by_ids (n ∷ ids) fresh started now ws y =
    let (is_new, s) = register_interest (n ∷ ids) y.source in
    let (verdict, y') = ensure_fetched (fresh || is_new) started now ws (record y { source = s }) in
    (
      elim verdict [
        | none ↦ none
        | some false ↦ some ([], n ∷ ids)
        | some true ↦ some (read_statuses (n ∷ ids) y'.source.ledger, [])
      ],
      y',
    )
