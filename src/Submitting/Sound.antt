-- ===== src/Submitting/Sound.antt =====
-- The accounts of a cycle of submissions (lsfmgr/submitter.py): what a cycle owes, and the
-- rules by which a piece of work keeps the accounts.
use pyqt_lsf_job_manager.Submitting.Cycle.{
  Cycle, Event, PendingRetry, SubmitReport, Work, admitted, counting, deciding, discarding, dropped,
  emitting, entered, failing, finished, finishing, gate_rejected, giving_up, queued, requested,
  retrying, rewriting, running, scheduling, starting, timed,
}
use pyqt_lsf_job_manager.Base.{
  Bool, Dict, IsUnique, List, String, [], any, arith, false, get, if◌then◌else◌, refl, string_key,
  sum_of, sum_of-append, sum_of-middle, total, true, weight, ℕ, ◌++◌, ◌+◌, ◌<◌, ◌∷◌, ◌≡◌, ◌≤◌,
}
use pyqt_lsf_job_manager.States.{same_text}

abbrev pub one : PendingRetry → ℕ
one _ = 1

-- The jobs that a work has still to count.
abbrev pub units : Work → ℕ
units (queued _ _) = 1
units (entered _ _) = 1
units (starting _ _) = 1
units (admitted _ _) = 1
units (running _ _) = 1
units (failing _ _ _) = 1
units (deciding _ _ _) = 1
units (rewriting _ _ _) = 1
units (retrying _ _ _) = 1
units (scheduling _ _) = 1
units (giving_up _ _ _) = 1
units (counting _ _ _) = 1
units (dropped _ _) = 1
units (discarding _ _) = 1
units _ = 0

-- Does it hold the one job of the key?
abbrev pub holds : String → Work → ℕ
holds k (queued key _) = if same_text key k then 1 else 0
holds k (entered key _) = if same_text key k then 1 else 0
holds k (starting key _) = if same_text key k then 1 else 0
holds k (admitted key _) = if same_text key k then 1 else 0
holds k (running key _) = if same_text key k then 1 else 0
holds k (failing key _ _) = if same_text key k then 1 else 0
holds k (deciding key _ _) = if same_text key k then 1 else 0
holds k (rewriting key _ _) = if same_text key k then 1 else 0
holds k (retrying key _ _) = if same_text key k then 1 else 0
holds k (scheduling key _) = if same_text key k then 1 else 0
holds k (giving_up key _ _) = if same_text key k then 1 else 0
holds k (discarding key _) = if same_text key k then 1 else 0
holds k (dropped key _) = if same_text key k then 1 else 0
holds k _ = 0

-- Will it look for the retry of the key in the ledger?
abbrev pub waits : String → Work → ℕ
waits k (requested key) = if same_text key k then 1 else 0
waits k (timed key) = if same_text key k then 1 else 0
waits k _ = 0

-- Will it look for the end of the cycle?
abbrev pub looks : Work → ℕ
looks (emitting _) = 1
looks (finishing _) = 1
looks _ = 0

abbrev pub is_report : Event → Bool
is_report (finished _) = true
is_report _ = false

-- The report is of all the jobs, and each is counted in one way.
abbrev pub IsFull : ℕ → SubmitReport → Type 0
IsFull total r = (r.total ≡ total) × (r.succeeded + r.failed + r.cancelled ≡ total)

-- If the cycle is finished, its report has been told, once, and after it at most that nothing was
-- launched; otherwise no report has been told.
abbrev pub Told : ℕ → Bool → List Event → Type 0
Told total false events = any is_report events ≡ false
Told total true [] = ⊥
Told total true (finished r ∷ events) = IsFull total r × (any is_report events ≡ false)
Told total true (gate_rejected ∷ events) = Told total true events
Told total true (_ ∷ events) = ⊥

pub record Sound (total_jobs done succeeded failed cancelled : ℕ) (is_finished : Bool)
    (ledger : Dict String PendingRetry) (works : List Work) (events : List Event) : Type 0 where
  pub divided : done ≡ succeeded + failed + cancelled
  pub conserved : done + sum_of units works + total one ledger ≡ total_jobs
  pub single : (k : String) → sum_of (holds k) works + weight one (get k ledger) ≤ 1
  pub unique : IsUnique ledger
  pub awaited : (k : String) → weight one (get k ledger) ≤ sum_of (waits k) works
  pub noticed : is_finished ≡ false → done ≡ total_jobs → 0 < sum_of looks works
  pub told : Told total_jobs is_finished events
  pub ended : is_finished ≡ true → done ≡ total_jobs

abbrev pub IsSound : Cycle → Type 0
IsSound c =
    let x = c.context in
    Sound x.total x.done x.succeeded x.failed x.cancelled x.is_finished x.pending_retries c.works
      c.events

-- The works stand in another order.
abbrev pub IsSame : List Work → List Work → Type 0
IsSame a b = (f : Work → ℕ) → sum_of f a ≡ sum_of f b

pub IsSame-middle : (a b : List Work) (w : Work) → IsSame (a ++ w ∷ b) (w ∷ (a ++ b))
unfolding sum_of
IsSame-middle a b w f = sum_of-middle f a b w

pub Sound-IsSame :
    {t d s f x : ℕ} {b : Bool} {m : Dict String PendingRetry} {v w : List Work} {e : List Event}
    → IsSame v w
    → Sound t d s f x b m v e
    → Sound t d s f x b m w e
Sound-IsSame i h = record {
  divided = h.divided;
  conserved = omega (arith, i units, h.conserved);
  single = λ k. omega (arith, i (holds k), h.single k);
  unique = h.unique;
  awaited = λ k. omega (arith, i (waits k), h.awaited k);
  noticed = λ o n. omega (arith, i looks, h.noticed o n);
  told = h.told;
  ended = h.ended;
}

-- One work is done, and leaves another that owes what it owed.
pub record Passes (w : Work) (new : List Work) : Type 0 where
  pub same_units : sum_of units new ≡ units w
  pub no_more : (k : String) → sum_of (holds k) new ≤ holds k w
  pub no_less : (k : String) → waits k w ≤ sum_of (waits k) new
  pub no_fewer : looks w ≤ sum_of looks new

pub Sound-Passes :
    {t d s f x : ℕ} {b : Bool} {m : Dict String PendingRetry} {e : List Event} (w : Work)
    (new rest : List Work)
    → Passes w new
    → Sound t d s f x b m (w ∷ rest) e
    → Sound t d s f x b m (new ++ rest) e
unfolding sum_of
Sound-Passes w new rest p h =
    let add = λ (f : Work → ℕ). sum_of-append f new rest in
    record {
      divided = h.divided;
      conserved = omega (arith, add units, h.conserved, p.same_units);
      single = λ k. omega (arith, add (holds k), h.single k, p.no_more k);
      unique = h.unique;
      awaited = λ k. omega (arith, add (waits k), h.awaited k, p.no_less k);
      noticed = λ o n. omega (arith, add looks, h.noticed o n, p.no_fewer);
      told = h.told;
      ended = h.ended;
    }

-- A cycle that still owes a job is not finished.
pub not_finished :
    {t d s f x : ℕ} (b : Bool) {m : Dict String PendingRetry} {e : List Event} (ws : List Work)
    → Sound t d s f x b m ws e
    → 0 < sum_of units ws
    → b ≡ false
not_finished false ws h u = refl
not_finished true ws h u = absurd (omega (arith, h.conserved, h.ended refl))
