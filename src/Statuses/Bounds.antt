-- ===== src/Statuses/Bounds.antt =====
-- lsfmgr/internal_status.py: how many fetches may run, in every interleaving of the callers and the
-- threads of the fetches.
use pyqt_lsf_job_manager.Base.{
  Bool, List, Option, [], arith, false, if_ind, if◌then◌else◌, is_some, leb, length, max, none,
  or_default, refl, some, string_key, subst, sum_of, sym, true, ℕ, ◌+◌, ◌-◌, ◌/◌, ◌==◌, ◌||◌, ◌∙◌,
  ◌∷◌, ◌≡◌, ◌≤◌,
}
use pyqt_lsf_job_manager.States.{JobStatus}
use pyqt_lsf_job_manager.Statuses.Source.{Source, close, idle, is_after, note_poll_interval}
use pyqt_lsf_job_manager.Statuses.Ledger.{forget, merge, prune, register_interest, too_soon}
use pyqt_lsf_job_manager.Statuses.Fetching.{
  Fetch, System, close_books, end_fetch, ending, max_inflight, take_answer,
}
use pyqt_lsf_job_manager.Statuses.Steps.{
  FetchReach, FetchStep, ask, begin, closes, ends, failover_returns, forgets, here, next, others,
  polls, primary_returns, register, times_out,
}
use pyqt_lsf_job_manager.Statuses.Books.{
  AreKept, Books, BooksOf, Hold, begin_fetch-AreKept, note_outcome-AreKept, of_token, one_if,
  primaries, return_failover-AreKept, return_primary-AreKept, start_or_takeover-AreKept, taken_out,
  unit,
}

-- What is true of the books stays true as an answer is taken.
take_answer-books :
    (P : Bool → ℕ → ℕ → ℕ → ℕ → Type 0) (answer : Option (List JobStatus)) (f : Fetch) (s : Source)
    → P s.fetching s.fetch_token s.next_token s.inflight s.primary_unreturned
    → let t = take_answer answer f s in
      P t.fetching t.fetch_token t.next_token t.inflight t.primary_unreturned
unfolding merge prune
take_answer-books P none f s h = h
take_answer-books P (some sts) f s h =
    let m = merge f.now f.at sts s in
    let s' : Source = record m {
      last_fetch_at = if is_after f.at m.last_fetch_at then some f.at else m.last_fetch_at;
    } in
    if_ind (λ (t : Source). P t.fetching t.fetch_token t.next_token t.inflight t.primary_unreturned)
      (s'.retention == 0 || too_soon f.at s'.last_prune_at) (λ _. h) (λ _. h)

-- The books once the thread is gone, as its token is that of the fetch on its way, or not.
abbrev Closing : Fetch → List Fetch → Bool → ℕ → ℕ → ℕ → ℕ → Type 0
Closing f fs fetching token next_token inflight called =
    ((token == f.token) ≡ true → Books false token next_token inflight called fs)
    × ((token == f.token) ≡ false → Books fetching token next_token inflight called fs)

closes_books :
    (f : Fetch) (y : System) (answer : Option (List JobStatus)) (by_failover : Bool)
    → f.phase ≡ ending answer by_failover
    → Hold f y
    → Closing f y.fetches y.source.fetching y.source.fetch_token y.source.next_token
        (y.source.inflight - 1)
        y.source.primary_unreturned
unfolding sum_of
closes_books f y answer by_failover e h = (
  λ own. record {
    counted = omega (arith, h.counted);
    called = ground (arith, h.called, e);
    few = omega (arith, h.few);
    room = λ _. omega (arith, h.few, h.counted);
    owned = owned_none y.source.fetching own h.owned;
    given = h.given;
    unused = λ n g. omega (arith, h.unused n g);
  },
  λ other. record {
    counted = omega (arith, h.counted);
    called = ground (arith, h.called, e);
    few = omega (arith, h.few);
    room = λ n. omega (arith, h.room n);
    owned = ground (arith, h.owned, other);
    given = h.given;
    unused = λ n g. omega (arith, h.unused n g);
  },
)
  where
    owned_none :
        (b : Bool)
        → (y.source.fetch_token == f.token) ≡ true
        → of_token y.source.fetch_token f + sum_of (of_token y.source.fetch_token) y.fetches
          ≡ one_if b
        → sum_of (of_token y.source.fetch_token) y.fetches ≡ 0
    owned_none true own o = ground (arith, own, o)
    owned_none false own o = ground (arith, own, o)

close_books-AreKept :
    (f : Fetch) (s : Source) (fs : List Fetch)
    → Closing f fs s.fetching s.fetch_token s.next_token s.inflight s.primary_unreturned
    → BooksOf (close_books f s) fs
close_books-AreKept f s fs (own, other) =
    if_ind (λ t. BooksOf t fs) (s.fetch_token == f.token) own other

end_fetch-AreKept :
    (answer : Option (List JobStatus)) (by_failover : Bool) (f : Fetch) (y : System)
    → f.phase ≡ ending answer by_failover
    → Hold f y
    → AreKept (end_fetch answer by_failover f y)
unfolding end_fetch
end_fetch-AreKept answer by_failover f y e h =
    let s : Source = record y.source { inflight = y.source.inflight - 1 } in
    let t = take_answer answer f s in
    note_outcome-AreKept f.at (is_some answer) by_failover (record y { source = close_books f t })
      (close_books-AreKept f t y.fetches (
        take_answer-books (Closing f y.fetches) answer f s
          (closes_books f y answer by_failover e h)))

FetchStep-AreKept : {y z : System} → FetchStep y z → AreKept y → AreKept z
unfolding register_interest forget note_poll_interval close
FetchStep-AreKept {y} (ask m now e) h = subst AreKept (sym e) (start_or_takeover-AreKept m now y h)
FetchStep-AreKept {y} (begin a b f e p q) h =
    subst AreKept (sym q) (begin_fetch-AreKept f (others a b y) p (taken_out a b f y e h))
FetchStep-AreKept {y} (primary_returns a b f x e p q) h =
    subst AreKept (sym q) (return_primary-AreKept x f (others a b y) p (taken_out a b f y e h))
FetchStep-AreKept {y} (failover_returns a b f x e p q) h =
    subst AreKept (sym q) (return_failover-AreKept x f (others a b y) p (taken_out a b f y e h))
FetchStep-AreKept {y} (ends a b f x v e p q) h =
    subst AreKept (sym q) (end_fetch-AreKept x v f (others a b y) p (taken_out a b f y e h))
FetchStep-AreKept {y} (register ids q) h = subst AreKept (sym q) h
FetchStep-AreKept {y} (forgets ids q) h = subst AreKept (sym q) h
FetchStep-AreKept {y} (polls v q) h = subst AreKept (sym q) (
    if_ind (λ (s : Source). BooksOf s y.fetches)
      (y.source.explicit || elim y.source.min_poll_interval [ none ↦ false | some m ↦ leb m v ])
      (λ _. h) (λ _. h))
FetchStep-AreKept {y} (times_out m q) h =
    subst AreKept (sym q) (note_outcome-AreKept m false false y h)
FetchStep-AreKept {y} (closes q) h = subst AreKept (sym q) h

-- A source that has not fetched anything, with the settings of the application.
abbrev pub fresh_source : Bool → Option ℕ → ℕ → ℕ → ℕ → Bool → System
fresh_source has_failover refresh_min poll_interval wait_timeout retention track_runtime = record {
  source = record {
    has_failover = has_failover;
    explicit = is_some refresh_min;
    refresh_min = or_default (poll_interval / 2) refresh_min;
    min_poll_interval = none;
    wait_timeout = max 1000000 wait_timeout;
    retention = retention;
    track_runtime = track_runtime;
    ledger = [];
    interest = [];
    last_fetch_at = none;
    last_prune_at = none;
    fetching = false;
    fetch_deadline = none;
    fetch_token = 0;
    next_token = 1;
    inflight = 0;
    gen = 0;
    closed = false;
    health = idle;
    health_at = none;
    primary_unreturned = 0;
  };
  fetches = [];
}

FetchReach-AreKept : {y z : System} → AreKept y → FetchReach y z → AreKept z
FetchReach-AreKept h here = h
FetchReach-AreKept h (next r s) = FetchStep-AreKept s (FetchReach-AreKept h r)

-- From a new source on, whatever callers and threads of fetches do, in whatever order: as many
-- threads run as the source counts, and never more than three; the callback of the application is
-- called in as many of them as the source counts as unreturned; and if the source says that a fetch
-- is on its way, exactly one thread is that fetch, otherwise none is.
pub fetches-AreFew :
    {y : System} (has_failover : Bool) (refresh_min : Option ℕ)
    (poll_interval wait_timeout retention : ℕ) (track_runtime : Bool)
    → FetchReach
        (fresh_source has_failover refresh_min poll_interval wait_timeout retention track_runtime)
        y
    → (y.source.inflight ≡ length y.fetches)
      × (length y.fetches ≤ max_inflight)
      × (y.source.primary_unreturned ≡ sum_of primaries y.fetches)
      × (sum_of (of_token y.source.fetch_token) y.fetches ≡ one_if y.source.fetching)
unfolding sum_of
fetches-AreFew {y} has_failover refresh_min poll_interval wait_timeout retention track_runtime r =
    let start : System =
      fresh_source has_failover refresh_min poll_interval wait_timeout retention track_runtime in
    let first : AreKept start = record {
      counted = refl;
      called = refl;
      few = omega arith;
      room = λ _. omega arith;
      owned = refl;
      given = omega arith;
      unused = λ n g. refl;
    } in
    let h = FetchReach-AreKept first r in
    let all = units-length y.fetches in
    (h.counted ∙ all, omega (arith, h.few, h.counted, all), h.called, h.owned)
  where
    units-length : (fs : List Fetch) → sum_of unit fs ≡ length fs
    units-length [] = refl
    units-length (f ∷ fs) = omega (arith, units-length fs)
