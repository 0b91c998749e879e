-- ===== src/Statuses/Books.antt =====
-- lsfmgr/internal_status.py: the books of the fetches, up to the end of a fetch.
use pyqt_lsf_job_manager.Base.{
  Bool, List, Option, ap, arith, false, if_ind, if◌then◌else◌, is_some, leb, none, not, refl, some,
  string_key, sum_of, sum_of-middle, true, ℕ, ◌++◌, ◌+◌, ◌-◌, ◌<◌, ◌==◌, ◌||◌, ◌∙◌, ◌∷◌, ◌≡◌, ◌≤◌,
}
use pyqt_lsf_job_manager.States.{JobStatus, Time}
use pyqt_lsf_job_manager.Statuses.Source.{Source, is_after, note_outcome}
use pyqt_lsf_job_manager.Statuses.Fetching.{
  Fetch, Phase, System, after_primary, attempt, begin_fetch, ending, in_failover, in_primary,
  is_due, max_inflight, return_failover, return_primary, spawned, start_fetch, start_or_takeover,
}
use pyqt_lsf_job_manager.Statuses.Steps.{others}

abbrev pub unit : Fetch → ℕ
unit f = 1

-- Is the callback of the application running there?
abbrev pub primaries : Fetch → ℕ
primaries f = elim f.phase [ in_primary ↦ 1 | _ ↦ 0 ]

abbrev pub of_token : ℕ → Fetch → ℕ
of_token n f = if f.token == n then 1 else 0

abbrev pub one_if : Bool → ℕ
one_if true = 1
one_if false = 0

-- The books of the fetches.
pub record Books (fetching : Bool) (fetch_token next_token inflight primary_unreturned : ℕ)
    (fs : List Fetch) : Type 0 where
  pub counted : inflight ≡ sum_of unit fs
  pub called : primary_unreturned ≡ sum_of primaries fs
  pub few : inflight ≤ max_inflight
  pub room : fetching ≡ false → inflight < max_inflight
  pub owned : sum_of (of_token fetch_token) fs ≡ one_if fetching
  pub given : fetch_token < next_token
  pub unused : (n : ℕ) → next_token ≤ n → sum_of (of_token n) fs ≡ 0

abbrev pub AreKept : System → Type 0
AreKept y =
    let s = y.source in
    Books s.fetching s.fetch_token s.next_token s.inflight s.primary_unreturned y.fetches

start_fetch-AreKept :
    (monotonic : ℕ) (now : Time) (y : System)
    → y.source.inflight < max_inflight
    → AreKept y
    → AreKept (start_fetch monotonic now y)
unfolding start_fetch sum_of
start_fetch-AreKept monotonic now y l h = record {
  counted = omega (arith, h.counted);
  called = omega (arith, h.called);
  few = omega (arith, l);
  room = λ f. absurd (cc);
  owned = ground (arith, h.unused y.source.next_token);
  given = omega arith;
  unused = λ n g. ground (arith, h.unused n, g);
}

pub note_outcome-AreKept :
    (monotonic : ℕ) (a b : Bool) (y : System)
    → AreKept y
    → AreKept (record y { source = note_outcome monotonic a b y.source })
unfolding note_outcome
note_outcome-AreKept monotonic a b y h =
    if_ind (λ s. AreKept (record y { source = s })) (is_after monotonic y.source.health_at) (λ _. h)
      (λ _. h)

pub start_or_takeover-AreKept :
    (monotonic : ℕ) (now : Time) (y : System)
    → AreKept y
    → AreKept (start_or_takeover monotonic now y).1
unfolding start_or_takeover
start_or_takeover-AreKept monotonic now y h =
    let P : Bool × System → Type 0 = λ r. AreKept r.1 in
    if_ind P (not y.source.fetching)
      (λ e. start_fetch-AreKept monotonic now y (h.room (ground (arith, e))) h)
      λ _.
        if_ind P (not (is_due monotonic y.source.fetch_deadline)) (λ _. h)
          λ _.
            if_ind P (leb max_inflight y.source.inflight)
              (λ _. note_outcome-AreKept monotonic false false y h)
              (λ e. start_fetch-AreKept monotonic now y (ground (arith, e)) h)

-- With one more fetch in hand.
abbrev pub Hold : Fetch → System → Type 0
Hold f y = AreKept (record y { fetches = f ∷ y.fetches })

pub taken_out :
    (a b : List Fetch) (f : Fetch) (y : System)
    → y.fetches ≡ a ++ f ∷ b
    → AreKept y
    → Hold f (others a b y)
unfolding sum_of
taken_out a b f y e h =
    let at = λ (g : Fetch → ℕ). ap (sum_of g) e ∙ sum_of-middle g a b f in
    record {
      counted = omega (arith, h.counted, at unit);
      called = omega (arith, h.called, at primaries);
      few = h.few;
      room = h.room;
      owned = omega (arith, h.owned, at (of_token y.source.fetch_token));
      given = h.given;
      unused = λ n g. omega (arith, h.unused n g, at (of_token n));
    }

abbrev pub BooksOf : Source → List Fetch → Type 0
BooksOf s fs = Books s.fetching s.fetch_token s.next_token s.inflight s.primary_unreturned fs

-- Another phase, that calls the callback of the application as often as the counter then says.
moved :
    (f : Fetch) (p : Phase) (k : ℕ) (y : System)
    → k ≡ sum_of primaries (record f { phase = p } ∷ y.fetches)
    → Hold f y
    → Books y.source.fetching y.source.fetch_token y.source.next_token y.source.inflight k
        (record f { phase = p } ∷ y.fetches)
unfolding sum_of
moved f p k y e h = record {
  counted = h.counted;
  called = e;
  few = h.few;
  room = h.room;
  owned = h.owned;
  given = h.given;
  unused = h.unused;
}

pub begin_fetch-AreKept :
    (f : Fetch) (y : System) → f.phase ≡ spawned → Hold f y → AreKept (begin_fetch f y)
unfolding begin_fetch sum_of
begin_fetch-AreKept f y e h =
    if_ind AreKept f.use_failover
      (λ _.
        moved f in_failover y.source.primary_unreturned y
          (unfold sum_of in ground (arith, h.called, e)) h)
      (λ _.
        moved f in_primary (y.source.primary_unreturned + 1) y
          (unfold sum_of in ground (arith, h.called, e)) h)

after_primary-calls :
    (answer : Option (List JobStatus)) (b : Bool) (f : Fetch)
    → primaries (record f { phase = after_primary answer b }) ≡ 0
after_primary-calls none true f = refl
after_primary-calls none false f = refl
after_primary-calls (some sts) b f = refl

pub return_primary-AreKept :
    (answer : Option (List JobStatus)) (f : Fetch) (y : System)
    → f.phase ≡ in_primary
    → Hold f y
    → AreKept (return_primary answer f y)
unfolding return_primary sum_of
return_primary-AreKept answer f y e h =
    let got = attempt answer y.source in
    moved f (after_primary got y.source.has_failover) (y.source.primary_unreturned - 1) y
      (unfold sum_of in
        ground (arith, h.called, e, after_primary-calls got y.source.has_failover f))
      h

pub return_failover-AreKept :
    (answer : Option (List JobStatus)) (f : Fetch) (y : System)
    → f.phase ≡ in_failover
    → Hold f y
    → AreKept (return_failover answer f y)
unfolding return_failover sum_of
return_failover-AreKept answer f y e h =
    let got = attempt answer y.source in
    moved f (ending got (f.use_failover || is_some got)) y.source.primary_unreturned y
      (unfold sum_of in ground (arith, h.called, e)) h
