-- ===== src/Submitting/Costs.antt =====
-- A measure of what a cycle of submissions has left to do (lsfmgr/submitter.py), and the pieces of
-- work that lower it.
use pyqt_lsf_job_manager.Submitting.Cycle.{
  Context, Cycle, Kind, PendingRetry, Work, aborting, admitted, cancelled_unit, counting, deciding,
  discarding, dropped, emitting, entered, failing, finishing, giving_up, leaving, queued, requested,
  retrying, rewriting, running, scheduling, starting, timed,
}
use pyqt_lsf_job_manager.Submitting.Records.{Written, crashed, mark_cancelled, vanished, wrote}
use pyqt_lsf_job_manager.Base.{
  IsUnique, List, Option-cases, String, arith, get, if_ind, inl, inr, pop, string_key, sum_of,
  total, total-pop, total-put, ℕ, ◌*◌, ◌+◌, ◌-◌, ◌||◌, ◌≡◌, ◌≤◌,
}
use pyqt_lsf_job_manager.States.{JobRecord}
use pyqt_lsf_job_manager.Submitting.Tasks.{
  Turn, cancel_task, fire, on_written, over, schedule_retry,
}
use pyqt_lsf_job_manager.Store.Effects.{Store}

-- At most so many pieces of work come of one; the number of the retries is that of the options.
abbrev pub work_cost : ℕ → Work → ℕ
work_cost n (queued _ a) = 13 + 13 * (n - a)
work_cost n (entered _ a) = 12 + 13 * (n - a)
work_cost n (starting _ a) = 11 + 13 * (n - a)
work_cost n (admitted _ a) = 10 + 13 * (n - a)
work_cost n (running _ a) = 9 + 13 * (n - a)
work_cost n (failing _ a _) = 8 + 13 * (n - a)
work_cost n (deciding _ a _) = 7 + 13 * (n - a)
work_cost n (rewriting _ a _) = 19 + 13 * (n - (a + 1))
work_cost n (retrying _ a _) = 18 + 13 * (n - (a + 1))
work_cost n (scheduling _ a) = 17 + 13 * (n - (a + 1))
work_cost n (giving_up _ _ _) = 5
work_cost n (counting _ _ _) = 4
work_cost n (emitting _) = 3
work_cost n (finishing _) = 2
work_cost n (leaving _) = 1
work_cost n (requested _) = 2
work_cost n (timed _) = 1
work_cost n (aborting _ _) = 1
work_cost n (dropped _ _) = 6
work_cost n (discarding _ _) = 5

abbrev pub retry_cost : ℕ → PendingRetry → ℕ
retry_cost n p = 13 + 13 * (n - p.attempt)

abbrev pub cost : ℕ → Cycle → ℕ
cost n c = sum_of (work_cost n) c.works + total (retry_cost n) c.context.pending_retries

module _ (n b : ℕ) where
  -- What is left to do is within a bound.
  abbrev pub Within : Cycle → Type 0
  Within d = (d.context.max_retry ≡ n) × (cost n d ≤ b)

  -- The context but for what the measure reads.
  abbrev AsMany : Context → Context → Type 0
  AsMany x y = (y.max_retry ≡ x.max_retry) × (y.pending_retries ≡ x.pending_retries)

  over-Within :
      (k : String) (kind : Kind) (rs : List JobRecord) (c : Cycle)
      → c.context.max_retry ≡ n
      → 4 + cost n c ≤ b
      → Within (over k kind rs c)
  unfolding sum_of
  over-Within k kind rs c m h = (m, omega (arith, h))

  pub on_written-Within :
      (k : String) (t : Turn) (r : Written × Store) (then_do : List JobRecord → Cycle → Cycle)
      (c : Cycle)
      → c.context.max_retry ≡ n
      → 4 + cost n c ≤ b
      → ((rs : List JobRecord) (s : Store) → Within (then_do rs (record c { store = s })))
      → Within (on_written k t r then_do c)
  unfolding sum_of
  on_written-Within k t (wrote rs, s) then_do c m h f = f rs s
  on_written-Within k t (vanished, s) then_do c m h f = (m, omega (arith, h))
  on_written-Within k t (crashed, s) then_do c m h f = (m, omega (arith, h))

  pub over_all-Within :
      (k : String) (kind : Kind) (t : Turn) (r : Written × Store) (c : Cycle)
      → c.context.max_retry ≡ n
      → 4 + cost n c ≤ b
      → Within (on_written k t r (over k kind) c)
  unfolding sum_of
  over_all-Within k kind t r c m h =
      on_written-Within k t r (over k kind) c m h (λ rs s. (m, omega (arith, h)))

  pub cancel_task-Within :
      (k : String) (t : Turn) (c : Cycle)
      → c.context.max_retry ≡ n
      → 4 + cost n c ≤ b
      → Within (cancel_task k t c)
  unfolding cancel_task
  cancel_task-Within k t c m h =
      over_all-Within k cancelled_unit t (mark_cancelled c.context.jobset_id k t.now c.store) c m h

  pub fire-Within :
      (k : String) (c : Cycle)
      → c.context.max_retry ≡ n
      → IsUnique c.context.pending_retries
      → cost n c ≤ b
      → Within (fire k c)
  unfolding fire sum_of
  fire-Within k c m u h = elim (Option-cases (get k c.context.pending_retries)) [
    | inl e ↦ rw (e, fire) (m, h)
    | inr (p, e) ↦
        let less = total-pop (retry_cost n) k c.context.pending_retries u in
        rw (e, fire)
          (
            m,
            if_ind
                (λ w.
                  work_cost n w
                    + sum_of (work_cost n) c.works
                    + total (retry_cost n) (pop k c.context.pending_retries)
                  ≤ b)
                (c.is_shut_down || c.context.cancel_event) {x = dropped k "CANCELLED"}
                {y = queued k p.attempt} (λ _. ground (arith, h, less, e))
                (λ _. ground (arith, h, less, e)),
          )
  ]

  -- The end of the wrapper: a retry is scheduled only below the limit.
  pub schedule_retry-Within :
      (k : String) (a : ℕ) (c : Cycle)
      → c.context.max_retry ≡ n
      → 16 + 13 * (n - (a + 1)) + cost n c ≤ b
      → Within (schedule_retry k a c)
  unfolding schedule_retry sum_of
  schedule_retry-Within k a c m h =
      let e : PendingRetry = record { delay = c.context.retry_delay a; attempt = a + 1 } in
      let more = total-put (retry_cost n) k e c.context.pending_retries in
      (m, omega (arith, h, more))
