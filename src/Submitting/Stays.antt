-- ===== src/Submitting/Stays.antt =====
-- What a step of a cycle of submissions (lsfmgr/submitter.py) leaves alone: the number of the jobs, and
-- what is cancelled. A cancelled job gets no new wrapper.
use pyqt_lsf_job_manager.Submitting.Cycle.{
  Context, Cycle, Event, Kind, SubmitError, Work, aborting, admitted, cancelled_unit, counting,
  deciding, discarding, dropped, emitting, entered, failed_unit, failing, finishing, giving_up,
  is_cancelled, leaving, queued, requested, retrying, rewriting, running, scheduling, starting,
  succeeded_unit, timed,
}
use pyqt_lsf_job_manager.Submitting.Records.{
  Written, crashed, mark_cancelled, mark_failed, mark_pend, mark_submitting, reason_given_up,
  vanished, wrote,
}
use pyqt_lsf_job_manager.Base.{
  Bool, Bool-cases, List, Option, Option-cases, String, [], arith, false, get, has, if_ind,
  if◌then◌else◌, inl, inr, ltb, map, none, not, refl, some, string_key, subst, sum_of, sym, true,
  true_ne_false, ℕ, ◌&&◌, ◌++◌, ◌+◌, ◌==◌, ◌||◌, ◌∙◌, ◌∷◌, ◌≡◌, ◌≤◌,
}
use pyqt_lsf_job_manager.States.{JobRecord, JobState, same_text}
use pyqt_lsf_job_manager.Submitting.Tasks.{
  Outcome, Turn, abort_retries, add, after_look, cancel_task, decide_retry, discard, end_wrapper,
  enter_inflight, fail_task, finalize_retry, fire, note, note_retried, on_written, over, perform,
  raised, refused, request_retry, schedule_retry, submitted, take_retries,
}
use pyqt_lsf_job_manager.States.Laws.{same_text_iff}
use pyqt_lsf_job_manager.Store.Effects.{Store}
use pyqt_lsf_job_manager.Lifecycle.Gate.{member}
use pyqt_lsf_job_manager.Submitting.Counting.{emit_progress, finish_if_done, note_transition, tally}
use pyqt_lsf_job_manager.Util.Emission.{should_emit}

-- Is the task of the key past its last look at the cancellation? Then its wrapper is to start or runs.
abbrev pub runs : String → Work → ℕ
runs k (admitted key _) = if same_text key k then 1 else 0
runs k (running key _) = if same_text key k then 1 else 0
runs k _ = 0

-- From one cycle to the then_do, where up to so many more wrappers of the key may have been in hand.
pub record Stays (key : String) (held : ℕ) (c d : Cycle) : Type 0 where
  pub same_total : d.context.total ≡ c.context.total
  pub same_event : d.context.cancel_event ≡ c.context.cancel_event
  pub same_keys : d.context.cancelled_keys ≡ c.context.cancelled_keys
  pub no_new :
      is_cancelled key c.context ≡ true
      → sum_of (runs key) d.works ≤ held + sum_of (runs key) c.works

-- The context but for what `Stays` speaks of.
abbrev IsLike : Context → Context → Type 0
IsLike x y =
    (y.total ≡ x.total) × (y.cancel_event ≡ x.cancel_event) × (y.cancelled_keys ≡ x.cancelled_keys)

stays :
    (key : String) (held : ℕ) (c d : Cycle)
    → IsLike c.context d.context
    → (is_cancelled key c.context ≡ true
        → sum_of (runs key) d.works ≤ held + sum_of (runs key) c.works)
    → Stays key held c d
stays key held c d (t, e, k) n = record {
  same_total = t;
  same_event = e;
  same_keys = k;
  no_new = n;
}

emit_progress-IsLike :
    (p : Bool) (now : ℕ) (x : Context) (e : List Event) → IsLike x (emit_progress p now x e).0
unfolding emit_progress
emit_progress-IsLike p now x e =
    let P : Context × List Event → Type 0 = λ y. IsLike x y.0 in
    if_ind P x.is_finished (λ _. (refl, refl, refl))
      λ f.
        if_ind P (should_emit x.throttler now x.done x.total).0 (λ _. (refl, refl, refl))
          (λ _. (refl, refl, refl))

note-IsLike : (rs : List JobRecord) (t : Turn) (c : Cycle) → IsLike c.context (note rs t c).context
unfolding note note_transition
note-IsLike [] t c = (refl, refl, refl)
note-IsLike (r ∷ rs) t c =
    emit_progress-IsLike false t.monotonic
      (record c.context { changed_buffer = c.context.changed_buffer ++ r ∷ rs }) c.events

finish_if_done-IsLike : (x : Context) (e : List Event) → IsLike x (finish_if_done false x e).0
unfolding finish_if_done
finish_if_done-IsLike x e =
    let P : Context × List Event → Type 0 = λ y. IsLike x y.0 in
    if_ind P (x.is_finished || (ltb x.done x.total && true)) (λ _. (refl, refl, refl))
      (λ _. (refl, refl, refl))

module _ (key : String) (held : ℕ) (c : Cycle) where
  over-Stays :
      (k : String) (kind : Kind) (rs : List JobRecord) (d : Cycle)
      → Stays key held c d
      → Stays key held c (over k kind rs d)
  unfolding sum_of
  over-Stays k kind rs d h =
      stays key held c _ (h.same_total, h.same_event, h.same_keys) (λ n. omega (arith, h.no_new n))

  on_written-Stays :
      (k : String) (t : Turn) (r : Written × Store) (then_do : List JobRecord → Cycle → Cycle)
      (d : Cycle)
      → Stays key held c d
      → ((rs : List JobRecord) (s : Store) → Stays key held c (then_do rs (record d { store = s })))
      → Stays key held c (on_written k t r then_do d)
  unfolding sum_of
  on_written-Stays k t (wrote rs, s) then_do d h n = n rs s
  on_written-Stays k t (vanished, s) then_do d h n =
      stays key held c _ (h.same_total, h.same_event, h.same_keys) (λ n. omega (arith, h.no_new n))
  on_written-Stays k t (crashed, s) then_do d h n =
      stays key held c _ (h.same_total, h.same_event, h.same_keys) (λ n. omega (arith, h.no_new n))

  over_all-Stays :
      (k : String) (kind : Kind) (t : Turn) (r : Written × Store) (d : Cycle)
      → Stays key held c d
      → Stays key held c (on_written k t r (over k kind) d)
  unfolding sum_of
  over_all-Stays k kind t r d h = on_written-Stays k t r (over k kind) d h (λ rs s.
      stays key held c _ (h.same_total, h.same_event, h.same_keys) (λ n. omega (arith, h.no_new n)))

  cancel_task-Stays :
      (k : String) (t : Turn) (d : Cycle)
      → Stays key held c d
      → Stays key held c (cancel_task k t d)
  unfolding cancel_task
  cancel_task-Stays k t d h =
      over_all-Stays k cancelled_unit t (mark_cancelled d.context.jobset_id k t.now d.store) d h

  -- A work without a wrapper comes.
  add-Stays :
      (w : Work) (d : Cycle) → runs key w ≡ 0 → Stays key held c d → Stays key held c (add w d)
  unfolding sum_of
  add-Stays w d z h =
      stays key held c _ (h.same_total, h.same_event, h.same_keys)
        (λ n. omega (arith, z, h.no_new n))

like-Stays :
    (key : String) (held : ℕ) (c d e : Cycle)
    → IsLike d.context e.context
    → e.works ≡ d.works
    → Stays key held c d
    → Stays key held c e
like-Stays key held c d e (t, v, k) w h =
    stays key held c e (t ∙ h.same_total, v ∙ h.same_event, k ∙ h.same_keys)
      (λ n. rw w (h.no_new n))

-- The cycle that it was.
starts : (key : String) (held : ℕ) (c : Cycle) → Stays key held c c
starts key held c = stays key held c c (refl, refl, refl) (λ n. omega arith)

schedule_retry-Stays :
    (key : String) (held : ℕ) (k : String) (a : ℕ) (c d : Cycle)
    → Stays key held c d
    → Stays key held c (schedule_retry k a d)
unfolding schedule_retry sum_of
schedule_retry-Stays key held k a c d h =
    stays key held c _ (h.same_total, h.same_event, h.same_keys) (λ n. omega (arith, h.no_new n))

fail_task-Stays :
    (key : String) (held : ℕ) (k : String) (a : ℕ) (e : SubmitError) (t : Turn) (c : Cycle)
    → Stays key held c (fail_task k a e t c)
unfolding fail_task
fail_task-Stays key held k a e t c =
    if_ind (Stays key held c) (member k c.context.cancelled_keys)
      (λ _. cancel_task-Stays key held c k t c (starts key held c))
      (λ _. add-Stays key held c (deciding k a e) c refl (starts key held c))

decide_retry-Stays :
    (key : String) (held : ℕ) (k : String) (a : ℕ) (e : SubmitError) (c : Cycle)
    → Stays key held c (decide_retry k a e c)
unfolding decide_retry
decide_retry-Stays key held k a e c =
    if_ind (Stays key held c)
      (e.retryable && ltb a c.context.max_retry && not c.context.cancel_event && not c.is_shut_down)
      (λ _. add-Stays key held c (rewriting k a e) c refl (starts key held c))
      (λ _. add-Stays key held c (giving_up k a e) c refl (starts key held c))

after_look-Stays :
    (key : String) (held : ℕ) (k : String) (o : Option String) (c : Cycle)
    → Stays key held c (after_look k o c)
after_look-Stays key held k none c =
    add-Stays key held c (counting none cancelled_unit []) c refl (starts key held c)
after_look-Stays key held k (some reason) c =
    add-Stays key held c (discarding k reason) c refl (starts key held c)

fire-Stays : (key : String) (held : ℕ) (k : String) (c : Cycle) → Stays key held c (fire k c)
unfolding fire sum_of
fire-Stays key held k c = elim (Option-cases (get k c.context.pending_retries)) [
  | inl e ↦ rw (e, fire) (starts key held c)
  | inr (p, e) ↦
      rw (e, fire)
        (stays key held c _ (refl, refl, refl)
          (λ n.
            if_ind (λ w. runs key w + sum_of (runs key) c.works ≤ held + sum_of (runs key) c.works)
              (c.is_shut_down || c.context.cancel_event) (λ _. omega arith) (λ _. omega arith)))
]

runs-dropped :
    (key reason : String) (ks : List String) (ws : List Work)
    → sum_of (runs key) (map (λ k. dropped k reason) ks ++ ws) ≡ sum_of (runs key) ws
unfolding sum_of
runs-dropped key reason [] ws = refl
runs-dropped key reason (k ∷ ks) ws = omega (arith, runs-dropped key reason ks ws)

pub perform-Stays :
    (key : String) (w : Work) (t : Turn) (c : Cycle) → Stays key (runs key w) c (perform w t c)
unfolding perform sum_of enter_inflight note request_retry abort_retries finalize_retry discard
    end_wrapper tally
perform-Stays key (queued k a) t c =
    if_ind (Stays key 0 c) (is_cancelled k c.context)
      (λ _. cancel_task-Stays key 0 c k t c (starts key 0 c))
      (λ _. stays key 0 c _ (refl, refl, refl) (λ n. omega arith))
perform-Stays key (entered k a) t c =
    on_written-Stays key 0 c k t (mark_submitting c.context.jobset_id k t.now c.store)
      (λ rs c'. add (starting k a) (if a == 0 then c' else note rs t c')) c (starts key 0 c)
      λ rs s.
        let c' = record c { store = s } in
        if_ind (λ d. Stays key 0 c (add (starting k a) d)) (a == 0)
          (λ _. stays key 0 c _ (refl, refl, refl) (λ n. omega arith))
          (λ _. stays key 0 c _ (note-IsLike rs t c') (λ n. omega arith))
perform-Stays key (starting k a) t c = elim (Bool-cases (is_cancelled k c.context)) [
  | inl b ↦ rw b (cancel_task-Stays key 0 c k t c (starts key 0 c))
  | inr b ↦ rw b (
      stays key 0 c (add (admitted k a) c) (refl, refl, refl)
        (λ n. elim (Bool-cases (same_text k key)) [
          | inl s ↦ absurd (
              true_ne_false (
                sym (subst (λ j. is_cancelled j c.context ≡ false) ((same_text_iff k key).0 s) b)
                ∙ n))
          | inr s ↦ ground (arith, s)
        ]))
]
perform-Stays key (admitted k a) t c = stays key _ c _ (refl, refl, refl) (λ n. omega arith)
perform-Stays key (running k a) t c = ended t.outcome
  where
    ended : (o : Outcome) → Stays key (runs key (running k a)) c (end_wrapper k a o t c)
    ended (submitted pid) =
        over_all-Stays key _ c k succeeded_unit t
          (mark_pend c.context.jobset_id k pid t.now c.store) c (starts key _ c)
    ended (refused e) = stays key _ c _ (refl, refl, refl) (λ n. omega arith)
    ended raised = stays key _ c _ (refl, refl, refl) (λ n. omega arith)
perform-Stays key (failing k a e) t c = fail_task-Stays key 0 k a e t c
perform-Stays key (deciding k a e) t c = decide_retry-Stays key 0 k a e c
perform-Stays key (rewriting k a e) t c =
    on_written-Stays key 0 c k t
      (mark_failed JobState.retry_wait c.context.jobset_id k (a + 1) e t.now c.store)
      (λ rs. add (retrying k a rs)) c (starts key 0 c)
      (λ rs s. stays key 0 c _ (refl, refl, refl) (λ n. omega arith))
perform-Stays key (retrying k a rs) t c =
    stays key 0 c _ (note-IsLike rs t (note_retried k c)) (λ n. omega arith)
perform-Stays key (scheduling k a) t c = schedule_retry-Stays key 0 k a c c (starts key 0 c)
perform-Stays key (giving_up k a e) t c =
    over_all-Stays key 0 c k (failed_unit e.fail_reason) t
      (mark_failed JobState.submit_failed c.context.jobset_id k a e t.now c.store) c
      (starts key 0 c)
perform-Stays key (counting who kind rs) t c = stays key 0 c _ (refl, refl, refl) (λ n. omega arith)
perform-Stays key (emitting who) t c =
    stays key 0 c _ (emit_progress-IsLike true t.monotonic c.context c.events) (λ n. omega arith)
perform-Stays key (finishing none) t c =
    stays key 0 c _ (finish_if_done-IsLike c.context c.events) (λ n. omega arith)
perform-Stays key (finishing (some k)) t c =
    stays key 0 c _ (finish_if_done-IsLike c.context c.events) (λ n. omega arith)
perform-Stays key (leaving k) t c = stays key 0 c _ (refl, refl, refl) (λ n. omega arith)
perform-Stays key (requested k) t c =
    if_ind (Stays key 0 c) (c.is_shut_down || c.context.cancel_event) (λ _. fire-Stays key 0 k c)
      λ _.
        if_ind (Stays key 0 c) (has k c.context.pending_retries)
          (λ _. stays key 0 c _ (refl, refl, refl) (λ n. omega arith)) (λ _. starts key 0 c)
perform-Stays key (timed k) t c = fire-Stays key 0 k c
perform-Stays key (aborting scope reason) t c =
    let r = take_retries scope c.context.pending_retries in
    stays key 0 c _ (refl, refl, refl) (λ n. omega (arith, runs-dropped key reason r.0 c.works))
perform-Stays key (dropped k reason) t c =
    after_look-Stays key 0 k (reason_given_up c.context.jobset_id k reason c.store) c
perform-Stays key (discarding k reason) t c = stays key 0 c _ (refl, refl, refl) (λ n. omega arith)
