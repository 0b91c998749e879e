-- ===== src/Submitting/Bounded.antt =====
-- A cycle of submissions (lsfmgr/submitter.py) does only so much by itself.
use pyqt_lsf_job_manager.Submitting.Cycle.{
  Context, Cycle, Event, PendingRetry, SubmitError, Work, aborting, admitted, counting, deciding,
  discarding, dropped, emitting, entered, failed_unit, failing, finishing, giving_up, is_cancelled,
  leaving, queued, requested, retrying, rewriting, running, scheduling, starting, succeeded_unit,
  timed,
}
use pyqt_lsf_job_manager.Submitting.Records.{
  mark_failed, mark_pend, mark_submitting, reason_given_up,
}
use pyqt_lsf_job_manager.Base.{
  Bool, Dict, IsUnique, List, Option, String, [], ap, arith, false, has, if_ind, if◌then◌else◌,
  keys, ltb, map, none, not, pop, pop-IsUnique, refl, some, string_key, subst, suc, sum_of,
  sum_of-middle, total, total-pop, true, ℕ, ◌&&◌, ◌*◌, ◌++◌, ◌+◌, ◌-◌, ◌<◌, ◌==◌, ◌||◌, ◌∙◌, ◌∷◌,
  ◌≡◌, ◌≤◌,
}
use pyqt_lsf_job_manager.States.{JobRecord, JobState}
use pyqt_lsf_job_manager.Submitting.Tasks.{
  Outcome, Turn, abort_retries, add, after_look, decide_retry, discard, end_wrapper, enter_inflight,
  fail_task, finalize_retry, note, note_retried, perform, pop_each, raised, refused, request_retry,
  submitted,
}
use pyqt_lsf_job_manager.Submitting.Costs.{
  Within, cancel_task-Within, cost, fire-Within, on_written-Within, over_all-Within, retry_cost,
  schedule_retry-Within, work_cost,
}
use pyqt_lsf_job_manager.Submitting.Steps.{act}
use pyqt_lsf_job_manager.Submitting.Sound.{IsSound}
use pyqt_lsf_job_manager.Util.Emission.{should_emit}
use pyqt_lsf_job_manager.Lifecycle.Gate.{member}
use pyqt_lsf_job_manager.Submitting.Counting.{emit_progress, finish_if_done, note_transition, tally}
use pyqt_lsf_job_manager.Submitting.Performed.{Step-IsSound}
use pyqt_lsf_job_manager.Submitting.Retries.{keys-pop_each}

-- What `emit_progress` and `finish_if_done` leave of a context.
abbrev Alike : Context → Context → Type 0
Alike x y = (y.max_retry ≡ x.max_retry) × (y.pending_retries ≡ x.pending_retries)

emit_progress-Alike :
    (p : Bool) (now : ℕ) (x : Context) (e : List Event) → Alike x (emit_progress p now x e).0
unfolding emit_progress
emit_progress-Alike p now x e =
    let P : Context × List Event → Type 0 = λ y. Alike x y.0 in
    if_ind P x.is_finished (λ _. (refl, refl))
      λ f.
        if_ind P (should_emit x.throttler now x.done x.total).0 (λ _. (refl, refl))
          (λ _. (refl, refl))

note-Alike : (rs : List JobRecord) (t : Turn) (c : Cycle) → Alike c.context (note rs t c).context
unfolding note note_transition
note-Alike [] t c = (refl, refl)
note-Alike (r ∷ rs) t c =
    emit_progress-Alike false t.monotonic
      (record c.context { changed_buffer = c.context.changed_buffer ++ r ∷ rs }) c.events

finish_if_done-Alike : (x : Context) (e : List Event) → Alike x (finish_if_done false x e).0
unfolding finish_if_done
finish_if_done-Alike x e =
    let P : Context × List Event → Type 0 = λ y. Alike x y.0 in
    if_ind P (x.is_finished || (ltb x.done x.total && true)) (λ _. (refl, refl)) (λ _. (refl, refl))

module _ (n b : ℕ) (t : Turn) (c : Cycle) (m : c.context.max_retry ≡ n) where
  fail_task-Within :
      (k : String) (a : ℕ) (e : SubmitError)
      → 7 + 13 * (n - a) + cost n c ≤ b
      → Within n b (fail_task k a e t c)
  unfolding fail_task sum_of
  fail_task-Within k a e h =
      if_ind (Within n b) (member k c.context.cancelled_keys)
        (λ _. cancel_task-Within n b k t c m (omega (arith, h))) (λ _. (m, omega (arith, h)))

  -- A retry is decided on only below the limit.
  decide_retry-Within :
      (k : String) (a : ℕ) (e : SubmitError)
      → 6 + 13 * (n - a) + cost n c ≤ b
      → Within n b (decide_retry k a e c)
  unfolding decide_retry sum_of
  decide_retry-Within k a e h =
      if_ind (Within n b)
        (e.retryable
          && ltb a c.context.max_retry
          && not c.context.cancel_event
          && not c.is_shut_down)
        (λ g. let below : a < n = ground (arith, g, m) in (m, omega (arith, h, below)))
        (λ _. (m, omega (arith, h)))

  after_look-Within :
      (k : String) (o : Option String) → 5 + cost n c ≤ b → Within n b (after_look k o c)
  unfolding sum_of
  after_look-Within k none h = (m, omega (arith, h))
  after_look-Within k (some reason) h = (m, omega (arith, h))

  end_wrapper-Within :
      (k : String) (a : ℕ) (o : Outcome)
      → 8 + 13 * (n - a) + cost n c ≤ b
      → Within n b (end_wrapper k a o t c)
  unfolding end_wrapper sum_of
  end_wrapper-Within k a (submitted pid) h =
      over_all-Within n b k succeeded_unit t (mark_pend c.context.jobset_id k pid t.now c.store) c m
        (omega (arith, h))
  end_wrapper-Within k a (refused e) h = (m, omega (arith, h))
  end_wrapper-Within k a raised h = (m, omega (arith, h))

  abort-cost :
      (reason : String) (ks : List String) (ledger : Dict String PendingRetry)
      → IsUnique ledger
      → sum_of (work_cost n) (map (λ k. dropped k reason) (pop_each ks ledger).0 ++ c.works)
          + total (retry_cost n) (pop_each ks ledger).1
        ≤ sum_of (work_cost n) c.works + total (retry_cost n) ledger
  unfolding pop_each sum_of
  abort-cost reason [] ledger u = omega arith
  abort-cost reason (k ∷ ks) ledger u =
      if_ind
        (λ (r : List String × Dict String PendingRetry).
          sum_of (work_cost n) (map (λ k'. dropped k' reason) r.0 ++ c.works)
            + total (retry_cost n) r.1
          ≤ sum_of (work_cost n) c.works + total (retry_cost n) ledger)
        (has k ledger)
        (λ y. ground (
          arith,
          y,
          abort-cost reason ks (pop k ledger) (pop-IsUnique k ledger u),
          total-pop (retry_cost n) k ledger u,
        ))
        (λ _. abort-cost reason ks ledger u)

  abort_retries-Within :
      (scope : Option (List String)) (reason : String)
      → IsUnique c.context.pending_retries
      → cost n c ≤ b
      → Within n b (abort_retries scope reason c)
  unfolding abort_retries total
  abort_retries-Within (some ks) reason u h =
      (m, omega (arith, h, abort-cost reason ks c.context.pending_retries u))
  abort_retries-Within none reason u h =
      let ledger = c.context.pending_retries in
      (
        m,
        omega (
          arith,
          h,
          subst
              (λ (r : List String × Dict String PendingRetry).
                sum_of (work_cost n) (map (λ k. dropped k reason) r.0 ++ c.works)
                  + total (retry_cost n) r.1
                ≤ sum_of (work_cost n) c.works + total (retry_cost n) ledger)
              (keys-pop_each ledger u) (abort-cost reason (keys ledger) ledger u),
        ),
      )

-- One piece of work lowers the measure.
perform-Within :
    (n b : ℕ) (w : Work) (t : Turn) (c : Cycle)
    → c.context.max_retry ≡ n
    → IsUnique c.context.pending_retries
    → work_cost n w + cost n c ≤ 1 + b
    → Within n b (perform w t c)
unfolding perform sum_of enter_inflight note request_retry finalize_retry discard tally
perform-Within n b (queued k a) t c m u h =
    if_ind (Within n b) (is_cancelled k c.context)
      (λ _. cancel_task-Within n b k t c m (omega (arith, h))) (λ _. (m, omega (arith, h)))
perform-Within n b (entered k a) t c m u h =
    on_written-Within n b k t (mark_submitting c.context.jobset_id k t.now c.store)
      (λ rs c'. add (starting k a) (if a == 0 then c' else note rs t c')) c m (omega (arith, h))
      λ rs s.
        let c' = record c { store = s } in
        let same = note-Alike rs t c' in
        if_ind (λ d. Within n b (add (starting k a) d)) (a == 0) (λ _. (m, omega (arith, h)))
          (λ _. (same.0 ∙ m, omega (arith, h, ap (total (retry_cost n)) same.1)))
perform-Within n b (starting k a) t c m u h =
    if_ind (Within n b) (is_cancelled k c.context)
      (λ _. cancel_task-Within n b k t c m (omega (arith, h))) (λ _. (m, omega (arith, h)))
perform-Within n b (admitted k a) t c m u h = (m, omega (arith, h))
perform-Within n b (running k a) t c m u h =
    end_wrapper-Within n b t c m k a t.outcome (omega (arith, h))
perform-Within n b (failing k a e) t c m u h = fail_task-Within n b t c m k a e (omega (arith, h))
perform-Within n b (deciding k a e) t c m u h =
    decide_retry-Within n b t c m k a e (omega (arith, h))
perform-Within n b (rewriting k a e) t c m u h =
    on_written-Within n b k t
      (mark_failed JobState.retry_wait c.context.jobset_id k (a + 1) e t.now c.store)
      (λ rs. add (retrying k a rs)) c m (omega (arith, h)) (λ rs s. (m, omega (arith, h)))
perform-Within n b (retrying k a rs) t c m u h =
    let same = note-Alike rs t (note_retried k c) in
    (same.0 ∙ m, omega (arith, h, ap (total (retry_cost n)) same.1))
perform-Within n b (scheduling k a) t c m u h = schedule_retry-Within n b k a c m (omega (arith, h))
perform-Within n b (giving_up k a e) t c m u h =
    over_all-Within n b k (failed_unit e.fail_reason) t
      (mark_failed JobState.submit_failed c.context.jobset_id k a e t.now c.store) c m
      (omega (arith, h))
perform-Within n b (counting who kind rs) t c m u h = (m, omega (arith, h))
perform-Within n b (emitting who) t c m u h =
    let same = emit_progress-Alike true t.monotonic c.context c.events in
    (same.0 ∙ m, omega (arith, h, ap (total (retry_cost n)) same.1))
perform-Within n b (finishing none) t c m u h =
    let same = finish_if_done-Alike c.context c.events in
    (same.0 ∙ m, omega (arith, h, ap (total (retry_cost n)) same.1))
perform-Within n b (finishing (some k)) t c m u h =
    let same = finish_if_done-Alike c.context c.events in
    (same.0 ∙ m, omega (arith, h, ap (total (retry_cost n)) same.1))
perform-Within n b (leaving k) t c m u h = (m, omega (arith, h))
perform-Within n b (requested k) t c m u h =
    if_ind (Within n b) (c.is_shut_down || c.context.cancel_event)
      (λ _. fire-Within n b k c m u (omega (arith, h)))
      λ _.
        if_ind (Within n b) (has k c.context.pending_retries) (λ _. (m, omega (arith, h)))
          (λ _. (m, omega (arith, h)))
perform-Within n b (timed k) t c m u h = fire-Within n b k c m u (omega (arith, h))
perform-Within n b (aborting scope reason) t c m u h =
    abort_retries-Within n b t c m scope reason u (omega (arith, h))
perform-Within n b (dropped k reason) t c m u h =
    after_look-Within n b t c m k (reason_given_up c.context.jobset_id k reason c.store)
      (omega (arith, h))
perform-Within n b (discarding k reason) t c m u h = (m, omega (arith, h))

work_cost-pos : (n : ℕ) (w : Work) → 0 < work_cost n w
work_cost-pos n (queued _ a) = omega arith
work_cost-pos n (entered _ a) = omega arith
work_cost-pos n (starting _ a) = omega arith
work_cost-pos n (admitted _ a) = omega arith
work_cost-pos n (running _ a) = omega arith
work_cost-pos n (counting _ _ _) = omega arith
work_cost-pos n (emitting _) = omega arith
work_cost-pos n (finishing _) = omega arith
work_cost-pos n (leaving _) = omega arith
work_cost-pos n (requested _) = omega arith
work_cost-pos n (timed _) = omega arith
work_cost-pos n (aborting _ _) = omega arith
work_cost-pos n (dropped _ _) = omega arith
work_cost-pos n (discarding _ _) = omega arith
work_cost-pos n (failing _ _ _) = omega arith
work_cost-pos n (deciding _ _ _) = omega arith
work_cost-pos n (rewriting _ _ _) = omega arith
work_cost-pos n (retrying _ _ _) = omega arith
work_cost-pos n (scheduling _ _) = omega arith
work_cost-pos n (giving_up _ _ _) = omega arith

-- So many pieces of work of the cycle, one after the other, with nothing from outside.
pub data Acts (c : Cycle) : ℕ → Cycle → Type 0 where
  no_act : Acts c 0 c
  one_act :
      {k : ℕ} {d e : Cycle} (before rest : List Work) (w : Work) (t : Turn)
      → Acts c k d
      → d.works ≡ before ++ w ∷ rest
      → e ≡ perform w t (record d { works = before ++ rest })
      → Acts c (suc k) e

Acts-IsSound : {c d : Cycle} {k : ℕ} → Acts c k d → IsSound c → IsSound d
Acts-IsSound no_act h = h
Acts-IsSound (one_act a b w t s e p) h = Step-IsSound (act a b w t e p) (Acts-IsSound s h)

-- A cycle whose accounts are in order does at most so many pieces of work by itself, in any order and
-- whatever its wrappers and its store give, as its measure says; each piece lowers the measure, and
-- a retry is scheduled only within the limit of the options. With `launch_cycle-ends`, a cycle that
-- is left to itself comes to its end.
pub Acts-bounded :
    {c d : Cycle} {k : ℕ}
    → IsSound c
    → Acts c k d
    → (d.context.max_retry ≡ c.context.max_retry)
      × (k + cost c.context.max_retry d ≤ cost c.context.max_retry c)
unfolding sum_of
Acts-bounded h no_act = (refl, omega arith)
Acts-bounded {c} {d} h (one_act {d = d'} a b w t s e p) =
    let n = c.context.max_retry in
    let (m, le) = Acts-bounded h s in
    let here : Cycle = record d' { works = a ++ b } in
    let mid : cost n d' ≡ work_cost n w + cost n here =
      omega (arith, sum_of-middle (work_cost n) a b w, ap (sum_of (work_cost n)) e) in
    let pos : 0 < work_cost n w = work_cost-pos n w in
    let r : Within n (cost n d' - 1) (perform w t here) =
      perform-Within n (cost n d' - 1) w t here m (Acts-IsSound s h).unique
        (omega (arith, mid, pos)) in
    let eq : cost n d ≡ cost n (perform w t here) = ap (cost n) p in
    (ap (λ z. z.context.max_retry) p ∙ r.0, omega (arith, le, r.1, mid, pos, eq))
