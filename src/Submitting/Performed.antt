-- ===== src/Submitting/Performed.antt =====
-- Every step of a cycle of submissions (lsfmgr/submitter.py) keeps its accounts.
use pyqt_lsf_job_manager.Submitting.Effects.{
  Accounts, HasJob, HasJob-Passes, Owes, Told-tell, Told-tell_changed, cancel_task-IsSound,
  crash-IsSound, emit_progress-Accounts, goes_on, is_over, job_admitted, job_deciding, job_entered,
  job_failing, job_giving_up, job_queued, job_retrying, job_rewriting, job_running, job_scheduling,
  job_starting, note-Owes, on_written-IsSound,
}
use pyqt_lsf_job_manager.Submitting.Cycle.{
  Context, Cycle, Event, SubmitError, Work, aborting, admitted, cancelled_unit, counting, deciding,
  discarding, dropped, emitting, entered, failed_unit, failing, finishing, giving_up, is_cancelled,
  leaving, progress, queued, requested, retrying, rewriting, running, scheduling, starting,
  succeeded_unit, timed,
}
use pyqt_lsf_job_manager.Submitting.Records.{
  mark_failed, mark_given_up, mark_pend, mark_submitting, reason_given_up,
}
use pyqt_lsf_job_manager.Base.{
  Bool, Bool-cases, List, Option, String, [], all, arith, false, if_ind, if◌then◌else◌, inl, inr,
  leb, ltb, none, not, refl, some, string_key, subst, sum_of, sym, true, ℕ, ◌&&◌, ◌++◌, ◌+◌, ◌==◌,
  ◌||◌, ◌∷◌, ◌≡◌,
}
use pyqt_lsf_job_manager.States.{JobRecord, JobState}
use pyqt_lsf_job_manager.Submitting.Tasks.{
  Outcome, Turn, add, after_look, decide_retry, discard, end_wrapper, enter_inflight, fail_task,
  finalize_retry, leave_after, note, note_retried, over, perform, raised, refused, submitted,
}
use pyqt_lsf_job_manager.Lifecycle.Gate.{member, union}
use pyqt_lsf_job_manager.Submitting.Counting.{finish_if_done, make_report}
use pyqt_lsf_job_manager.Submitting.Steps.{
  Reach, Step, act, cancel, cancel_scope, cancel_submit, elsewhere, here, kill, next, shut,
  shutdown,
}
use pyqt_lsf_job_manager.Submitting.Sound.{IsSame-middle, IsSound, Sound-IsSame, Sound-Passes, Told}
use pyqt_lsf_job_manager.Submitting.Kept.{counting-IsSound, schedule_retry-IsSound}
use pyqt_lsf_job_manager.Submitting.Retries.{
  abort_retries-IsSound, adds, fire-IsSound, goes, request_retry-IsSound,
}

leave_after-IsSound : (who : Option String) (c : Cycle) → IsSound c → IsSound (leave_after who c)
leave_after-IsSound none c h = h
leave_after-IsSound (some key) c h = adds (leaving key) c refl (λ k. refl) h

pub finish_if_done-Accounts :
    (force : Bool) (who : Option String) (x : Context) (e : List Event) (ws : List Work)
    → (force ≡ true → x.done ≡ x.total)
    → Accounts (finishing who ∷ ws) x e
    → let (x', e') = finish_if_done force x e in Accounts ws x' e'
unfolding finish_if_done make_report sum_of
finish_if_done-Accounts force who x e ws all h =
    let P : Context × List Event → Type 0 = λ y. Accounts ws y.0 y.1 in
    if_ind P (x.is_finished || (ltb x.done x.total && not force))
      (λ b. record {
        divided = h.divided;
        conserved = omega (arith, h.conserved);
        single = λ k. omega (arith, h.single k);
        unique = h.unique;
        awaited = λ k. omega (arith, h.awaited k);
        noticed = λ o n. absurd (ground (arith, b, o, n));
        told = h.told;
        ended = h.ended;
      })
      λ b.
        let open_still : x.is_finished ≡ false = ground (arith, b) in
        let full : x.done ≡ x.total = elim (Bool-cases force) [
          | inl y ↦ all y
          | inr n ↦ ground (arith, b, n, h.conserved)
        ] in
        let none_yet : Told x.total false e = subst (λ f. Told x.total f e) open_still h.told in
        record {
          divided = h.divided;
          conserved = omega (arith, h.conserved);
          single = λ k. omega (arith, h.single k);
          unique = h.unique;
          awaited = λ k. omega (arith, h.awaited k);
          noticed = λ o n. absurd (cc);
          told = (
            (refl, omega (arith, h.divided, full)),
            Told-tell_changed x.total false x.changed_buffer _ refl (
                if_ind (Told x.total false) (leb x.total x.done)
                  (λ _. Told-tell x.total false (progress x.total x.total) e refl refl none_yet)
                  (λ _. none_yet)),
          );
          ended = λ _. full;
        }

fail_task-IsSound :
    (key : String) (a : ℕ) (e : SubmitError) (t : Turn) (c : Cycle)
    → Owes (failing key a e) c
    → IsSound (fail_task key a e t c)
unfolding fail_task
fail_task-IsSound key a e t c h =
    let j = job_failing key a e in
    if_ind IsSound (member key c.context.cancelled_keys)
      (λ _. cancel_task-IsSound key (failing key a e) t c j h)
      (λ _. goes_on key (failing key a e) (deciding key a e) c j (job_deciding key a e) h)

decide_retry-IsSound :
    (key : String) (a : ℕ) (e : SubmitError) (c : Cycle)
    → Owes (deciding key a e) c
    → IsSound (decide_retry key a e c)
unfolding decide_retry
decide_retry-IsSound key a e c h =
    let j = job_deciding key a e in
    if_ind IsSound
      (e.retryable && ltb a c.context.max_retry && not c.context.cancel_event && not c.is_shut_down)
      (λ _. goes_on key (deciding key a e) (rewriting key a e) c j (job_rewriting key a e) h)
      (λ _. goes_on key (deciding key a e) (giving_up key a e) c j (job_giving_up key a e) h)

-- A retry that is given up is counted.
gives_up-IsSound :
    (key : String) (w : Work) (rs : List JobRecord) (c : Cycle)
    → HasJob key w
    → Owes w c
    → IsSound (add (counting none cancelled_unit rs) c)
gives_up-IsSound key w rs c j h =
    Sound-Passes w (counting none cancelled_unit rs ∷ []) c.works
      (HasJob-Passes key w _ j refl (λ k. omega arith)) h

job_dropped : (key reason : String) → HasJob key (dropped key reason)
job_dropped key reason = record {
  one_unit = refl;
  holding = λ k. refl;
  no_wait = λ k. refl;
  no_look = refl;
}

job_discarding : (key reason : String) → HasJob key (discarding key reason)
job_discarding key reason = record {
  one_unit = refl;
  holding = λ k. refl;
  no_wait = λ k. refl;
  no_look = refl;
}

after_look-IsSound :
    (key reason : String) (o : Option String) (c : Cycle)
    → Owes (dropped key reason) c
    → IsSound (after_look key o c)
after_look-IsSound key reason none c h =
    gives_up-IsSound key (dropped key reason) [] c (job_dropped key reason) h
after_look-IsSound key reason (some text) c h =
    goes_on key (dropped key reason) (discarding key text) c (job_dropped key reason)
      (job_discarding key text) h

end_wrapper-IsSound :
    (key : String) (a : ℕ) (o : Outcome) (t : Turn) (c : Cycle)
    → Owes (running key a) c
    → IsSound (end_wrapper key a o t c)
unfolding end_wrapper
end_wrapper-IsSound key a (submitted pid) t c h =
    let j = job_running key a in
    on_written-IsSound key (running key a) t (mark_pend c.context.jobset_id key pid t.now c.store)
      (over key succeeded_unit) c j h
      (λ rs s. is_over key (running key a) succeeded_unit rs (record c { store = s }) j h)
end_wrapper-IsSound key a (refused e) t c h =
    goes_on key (running key a) (failing key a e) c (job_running key a) (job_failing key a e) h
end_wrapper-IsSound key a raised t c h = crash-IsSound key (running key a) t c (job_running key a) h

enter_inflight-IsSound :
    (key : String) (a : ℕ) (c : Cycle) → Owes (queued key a) c → IsSound (enter_inflight key a c)
unfolding enter_inflight
enter_inflight-IsSound key a c h =
    goes_on key (queued key a) (entered key a)
      (record c { context = record c.context { inflight = union c.context.inflight (key ∷ []) } })
      (job_queued key a) (job_entered key a) h

perform-IsSound : (w : Work) (t : Turn) (c : Cycle) → Owes w c → IsSound (perform w t c)
unfolding perform finalize_retry discard
perform-IsSound (queued key a) t c h =
    if_ind IsSound (is_cancelled key c.context)
      (λ _. cancel_task-IsSound key (queued key a) t c (job_queued key a) h)
      (λ _. enter_inflight-IsSound key a c h)
perform-IsSound (entered key a) t c h =
    on_written-IsSound key (entered key a) t (mark_submitting c.context.jobset_id key t.now c.store)
      (λ rs c'. add (starting key a) (if a == 0 then c' else note rs t c')) c (job_entered key a) h
      λ rs s.
        let c' = record c { store = s } in
        if_ind (λ d. IsSound (add (starting key a) d)) (a == 0)
          (λ _.
            goes_on key (entered key a) (starting key a) c' (job_entered key a) (job_starting key a)
              h)
          (λ _.
            goes_on key (entered key a) (starting key a) (note rs t c') (job_entered key a)
              (job_starting key a) (note-Owes rs t (entered key a) c' h))
perform-IsSound (starting key a) t c h =
    if_ind IsSound (is_cancelled key c.context)
      (λ _. cancel_task-IsSound key (starting key a) t c (job_starting key a) h)
      (λ _.
        goes_on key (starting key a) (admitted key a) c (job_starting key a) (job_admitted key a) h)
perform-IsSound (admitted key a) t c h =
    goes_on key (admitted key a) (running key a) c (job_admitted key a) (job_running key a) h
perform-IsSound (running key a) t c h = end_wrapper-IsSound key a t.outcome t c h
perform-IsSound (failing key a e) t c h = fail_task-IsSound key a e t c h
perform-IsSound (deciding key a e) t c h = decide_retry-IsSound key a e c h
perform-IsSound (rewriting key a e) t c h =
    let j = job_rewriting key a e in
    on_written-IsSound key (rewriting key a e) t
      (mark_failed JobState.retry_wait c.context.jobset_id key (a + 1) e t.now c.store)
      (λ rs. add (retrying key a rs)) c j h
      (λ rs s.
        goes_on key (rewriting key a e) (retrying key a rs) (record c { store = s }) j
          (job_retrying key a rs) h)
perform-IsSound (retrying key a rs) t c h =
    goes_on key (retrying key a rs) (scheduling key a) (note rs t (note_retried key c))
      (job_retrying key a rs) (job_scheduling key a)
      (note-Owes rs t (retrying key a rs) (note_retried key c) h)
perform-IsSound (scheduling key a) t c h = schedule_retry-IsSound key a a c h
perform-IsSound (giving_up key a e) t c h =
    let j = job_giving_up key a e in
    on_written-IsSound key (giving_up key a e) t
      (mark_failed JobState.submit_failed c.context.jobset_id key a e t.now c.store)
      (over key (failed_unit e.fail_reason)) c j h
      (λ rs s.
        is_over key (giving_up key a e) (failed_unit e.fail_reason) rs (record c { store = s }) j h)
perform-IsSound (counting who kind rs) t c h = counting-IsSound who kind rs t c h
perform-IsSound (emitting who) t c h =
    emit_progress-Accounts true t.monotonic c.context c.events (finishing who ∷ c.works) (
      Sound-Passes (emitting who) (finishing who ∷ []) c.works
        (unfold sum_of in
          record {
            same_units = refl;
            no_more = λ k. omega arith;
            no_less = λ k. omega arith;
            no_fewer = omega arith;
          })
        h)
perform-IsSound (finishing who) t c h =
    let r = finish_if_done false c.context c.events in
    leave_after-IsSound who (record c { context = r.0; events = r.1 })
      (finish_if_done-Accounts false who c.context c.events c.works (λ n. cc) h)
perform-IsSound (leaving key) t c h = goes (leaving key) c refl (λ k. refl) refl h
perform-IsSound (requested key) t c h = request_retry-IsSound key c h
perform-IsSound (timed key) t c h =
    fire-IsSound key (timed key) c (refl, λ k. refl, λ k. refl, refl) h
perform-IsSound (aborting scope reason) t c h =
    abort_retries-IsSound scope reason c (goes (aborting scope reason) c refl (λ k. refl) refl h)
perform-IsSound (dropped key reason) t c h =
    after_look-IsSound key reason (reason_given_up c.context.jobset_id key reason c.store) c h
perform-IsSound (discarding key reason) t c h =
    let r = mark_given_up c.context.jobset_id key reason t.now c.store in
    gives_up-IsSound key (discarding key reason) r.0 (record c { store = r.1 })
      (job_discarding key reason) h

pub Step-IsSound : {c d : Cycle} → Step c d → IsSound c → IsSound d
unfolding cancel_scope cancel_submit shutdown
Step-IsSound {c} {d} (act a b w t e p) h =
    let held : Owes w (record c { works = a ++ b }) =
      Sound-IsSame (IsSame-middle a b w) (subst (λ ws. IsSound (record c { works = ws })) e h) in
    subst IsSound (sym p) (perform-IsSound w t (record c { works = a ++ b }) held)
Step-IsSound {c} {d} (kill none p) h =
    subst IsSound (sym p) (adds (aborting none "KILLED") c refl (λ k. refl) h)
Step-IsSound {c} {d} (kill (some ks) p) h =
    subst IsSound (sym p) (adds (aborting (some ks) "KILLED") c refl (λ k. refl) h)
Step-IsSound {c} {d} (cancel p) h =
    subst IsSound (sym p) (adds (aborting none "CANCELLED") c refl (λ k. refl) h)
Step-IsSound {c} {d} (shut p) h =
    subst IsSound (sym p) (adds (aborting none "SHUTDOWN") c refl (λ k. refl) h)
Step-IsSound {c} {d} (elsewhere s p) h = subst IsSound (sym p) h

pub Reach-IsSound : {c d : Cycle} → Reach c d → IsSound c → IsSound d
Reach-IsSound here h = h
Reach-IsSound (next r s) h = Step-IsSound s (Reach-IsSound r h)
