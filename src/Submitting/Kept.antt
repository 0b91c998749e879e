-- ===== src/Submitting/Kept.antt =====
-- Each piece of work of a cycle (lsfmgr/submitter.py) keeps the accounts: the tasks, the counting,
-- and the ledger of the retries.
use pyqt_lsf_job_manager.Submitting.Cycle.{Cycle, Kind, PendingRetry, Work, counting, scheduling}
use pyqt_lsf_job_manager.Base.{
  Bool-cases, List, Option, String, ap, arith, get, get-pop, get-put, if◌then◌else◌, inl, inr, none,
  pop, pop-IsUnique, put-IsUnique, some, string_key, subst, sum_of, total-pop, total-put, weight, ℕ,
  ◌+◌, ◌∷◌, ◌≡◌,
}
use pyqt_lsf_job_manager.States.{JobRecord, same_text}
use pyqt_lsf_job_manager.States.Laws.{same_text_iff}
use pyqt_lsf_job_manager.Submitting.Counting.{tally}
use pyqt_lsf_job_manager.Submitting.Tasks.{Turn, add, perform, schedule_retry}
use pyqt_lsf_job_manager.Submitting.Sound.{IsSound, holds, looks, not_finished, one, units, waits}
use pyqt_lsf_job_manager.Submitting.Effects.{HasJob, Owes}

-- A retry goes into the ledger, whose key is free since its task holds the job.
pub schedule_retry-IsSound :
    (key : String) (a n : ℕ) (c : Cycle)
    → Owes (scheduling key n) c
    → IsSound (schedule_retry key a c)
unfolding schedule_retry sum_of
schedule_retry-IsSound key a n c h =
    let m = c.context.pending_retries in
    let e : PendingRetry = record { delay = c.context.retry_delay a; attempt = a + 1 } in
    let free : weight one (get key m) ≡ 0 = ground (arith, h.single key, same_text_iff key key) in
    let more = total-put one key e m in
    record {
      divided = h.divided;
      conserved = omega (arith, h.conserved, more, free);
      single = λ k. ground (arith, h.single k, get-put key e m k, same_text_iff key k);
      unique = put-IsUnique key e m h.unique;
      awaited = λ k. ground (arith, h.awaited k, get-put key e m k, same_text_iff key k);
      noticed = λ o n. omega (arith, h.noticed o n);
      told = h.told;
      ended = h.ended;
    }

pub counting-IsSound :
    (who : Option String) (kind : Kind) (rs : List JobRecord) (t : Turn) (c : Cycle)
    → Owes (counting who kind rs) c
    → IsSound (perform (counting who kind rs) t c)
unfolding perform tally sum_of
counting-IsSound who kind rs t c h =
    let f =
      not_finished c.context.is_finished (counting who kind rs ∷ c.works) h
        (unfold sum_of in omega arith) in
    record {
      divided = ground (arith, h.divided);
      conserved = omega (arith, h.conserved);
      single = λ k. omega (arith, h.single k);
      unique = h.unique;
      awaited = λ k. omega (arith, h.awaited k);
      noticed = λ o n. omega arith;
      told = h.told;
      ended = λ e. absurd (ground (arith, e, f));
    }

-- A work that only looks for the retry of a key.
abbrev pub IsRetryWork : String → Work → Type 0
IsRetryWork key w =
    (units w ≡ 0)
    × ((k : String) → holds k w ≡ 0)
    × ((k : String) → waits k w ≡ (if same_text key k then 1 else 0))
    × (looks w ≡ 0)

-- It may go if the ledger has no retry of its key.
pub drops :
    (key : String) (w : Work) (c : Cycle)
    → IsRetryWork key w
    → get key c.context.pending_retries ≡ none
    → Owes w c
    → IsSound c
unfolding sum_of
drops key w c (u, g, a, l) e h =
    let m = c.context.pending_retries in
    record {
      divided = h.divided;
      conserved = omega (arith, h.conserved, u);
      single = λ k. omega (arith, h.single k, g k);
      unique = h.unique;
      awaited = λ k. elim (Bool-cases (same_text key k)) [
        | inl s ↦
            let z : weight one (get k m) ≡ 0 =
              subst (λ j. weight one (get j m) ≡ 0) ((same_text_iff key k).0 s)
                (ground (arith, e)) in
            omega (arith, z)
        | inr s ↦ ground (arith, h.awaited k, a k)
      ];
      noticed = λ o n. omega (arith, h.noticed o n, l);
      told = h.told;
      ended = h.ended;
    }

abbrev pub popped : String → Cycle → Cycle
popped key c = record c {
  context = record c.context { pending_retries = pop key c.context.pending_retries };
}

-- It takes the retry, and a work that holds its job is left.
pub takes :
    (key : String) (w v : Work) (p : PendingRetry) (c : Cycle)
    → IsRetryWork key w
    → HasJob key v
    → get key c.context.pending_retries ≡ some p
    → Owes w c
    → IsSound (add v (popped key c))
unfolding sum_of
takes key w v p c (u, g, a, l) j e h =
    let m = c.context.pending_retries in
    let less = total-pop one key m h.unique in
    record {
      divided = h.divided;
      conserved = ground (arith, h.conserved, u, j.one_unit, less, e);
      single = λ k. ground (
        arith,
        h.single k,
        g k,
        j.holding k,
        get-pop key m k,
        same_text_iff key k,
        e,
        ap (λ i. weight one (get i m)),
      );
      unique = pop-IsUnique key m h.unique;
      awaited =
          λ k. ground (arith, h.awaited k, a k, j.no_wait k, get-pop key m k, same_text_iff key k);
      noticed = λ o n. omega (arith, h.noticed o n, l, j.no_look);
      told = h.told;
      ended = h.ended;
    }
