-- ===== src/Statuses/Source.antt =====
-- lsfmgr/internal_status.py, the state of an InternalStatusSource. A clock reading is a number; `none`
-- stands for minus infinity where a time has not been set yet, and for infinity at the deadline.
use pyqt_lsf_job_manager.Base.{
  Bool, Dict, List, Option, false, if◌then◌else◌, index_key, leb, ltb, nat_key, none, not, some,
  string_key, true, ℕ, ◌/◌, ◌||◌,
}
use pyqt_lsf_job_manager.States.{JobStatus, Time}

pub data FetcherState : Type 0 where
  idle primary failover down : FetcherState

-- `_Entry`
pub record Entry : Type 0 where
  pub status : JobStatus
  pub seen_at : Time
  pub fetched_at : ℕ

abbrev pub Elements : Type 0
Elements = Dict (Option ℕ) Entry

pub record Source : Type 0 where
  pub has_failover : Bool
  pub explicit : Bool
  pub refresh_min : ℕ
  pub min_poll_interval : Option ℕ
  pub wait_timeout : ℕ
  pub retention : ℕ
  pub track_runtime : Bool
  pub ledger : Dict ℕ Elements
  pub interest : List ℕ
  pub last_fetch_at : Option ℕ
  pub last_prune_at : Option ℕ
  pub fetching : Bool
  pub fetch_deadline : Option ℕ
  -- The token of the fetch that is not taken over, and the next one to give.
  pub fetch_token : ℕ
  pub next_token : ℕ
  pub inflight : ℕ
  pub gen : ℕ
  pub closed : Bool
  pub health : FetcherState
  pub health_at : Option ℕ
  pub primary_unreturned : ℕ

-- `at >= min_at`, where a time may not be set.
abbrev pub reached : Option ℕ → ℕ → Bool
reached none t = false
reached (some a) t = leb t a

-- `at > old`
abbrev pub is_after : ℕ → Option ℕ → Bool
is_after t none = true
is_after t (some old) = ltb old t

-- `_health_at`, and the outcome of a fetch; a late one changes nothing.
unfoldable pub note_outcome : ℕ → Bool → Bool → Source → Source
note_outcome now was_ok by_failover s =
    if is_after now s.health_at
    then record s {
      health_at = some now;
      health = if not was_ok then down else if by_failover then failover else primary;
    }
    else s

-- `note_poll_interval`
unfoldable pub note_poll_interval : ℕ → Source → Source
note_poll_interval interval s =
    if s.explicit || elim s.min_poll_interval [ none ↦ false | some m ↦ leb m interval ]
    then s
    else record s { min_poll_interval = some interval; refresh_min = interval / 2 }

unfoldable pub invalidate : Source → Source
invalidate s = record s { last_fetch_at = none }

unfoldable pub close : Source → Source
close s = record s { closed = true }
