-- ===== src/Statuses/Steps.antt =====
-- lsfmgr/internal_status.py: the interleavings of the callers and the threads of the fetches.
use pyqt_lsf_job_manager.Base.{Bool, List, Option, false, string_key, ℕ, ◌++◌, ◌∷◌, ◌≡◌}
use pyqt_lsf_job_manager.States.{JobStatus, Time}
use pyqt_lsf_job_manager.Statuses.Source.{close, note_outcome, note_poll_interval}
use pyqt_lsf_job_manager.Statuses.Ledger.{forget, register_interest}
use pyqt_lsf_job_manager.Statuses.Fetching.{
  Fetch, System, begin_fetch, end_fetch, ending, in_failover, in_primary, return_failover,
  return_primary, spawned, start_or_takeover,
}

-- A fetch whose thread is taken out of the others.
abbrev pub others : List Fetch → List Fetch → System → System
others a b y = record y { fetches = a ++ b }

-- A caller makes sure that a fetch is on its way, or gives up; a thread goes on; or anything else
-- happens to the source that the fetches do not see: ids are registered and forgotten, the
-- interval changes, the source is closed.
pub data FetchStep (y z : System) : Type 0 where
  ask : (monotonic : ℕ) (now : Time) → z ≡ (start_or_takeover monotonic now y).1 → FetchStep y z
  begin :
      (a b : List Fetch) (f : Fetch)
      → y.fetches ≡ a ++ f ∷ b
      → f.phase ≡ spawned
      → z ≡ begin_fetch f (others a b y)
      → FetchStep y z
  primary_returns :
      (a b : List Fetch) (f : Fetch) (answer : Option (List JobStatus))
      → y.fetches ≡ a ++ f ∷ b
      → f.phase ≡ in_primary
      → z ≡ return_primary answer f (others a b y)
      → FetchStep y z
  failover_returns :
      (a b : List Fetch) (f : Fetch) (answer : Option (List JobStatus))
      → y.fetches ≡ a ++ f ∷ b
      → f.phase ≡ in_failover
      → z ≡ return_failover answer f (others a b y)
      → FetchStep y z
  ends :
      (a b : List Fetch) (f : Fetch) (answer : Option (List JobStatus)) (by_failover : Bool)
      → y.fetches ≡ a ++ f ∷ b
      → f.phase ≡ ending answer by_failover
      → z ≡ end_fetch answer by_failover f (others a b y)
      → FetchStep y z
  register :
      (ids : List ℕ) → z ≡ record y { source = (register_interest ids y.source).1 } → FetchStep y z
  forgets : (ids : List ℕ) → z ≡ record y { source = forget ids y.source } → FetchStep y z
  polls :
      (interval : ℕ)
      → z ≡ record y { source = note_poll_interval interval y.source }
      → FetchStep y z
  times_out :
      (monotonic : ℕ)
      → z ≡ record y { source = note_outcome monotonic false false y.source }
      → FetchStep y z
  closes : z ≡ record y { source = close y.source } → FetchStep y z

pub data FetchReach (y : System) : System → Type 0 where
  here : FetchReach y y
  next : {z u : System} → FetchReach y z → FetchStep z u → FetchReach y u
