-- ===== src/Submitting/Ends.antt =====
-- The end of a cycle of submissions (lsfmgr/submitter.py), whatever its threads, the kills and the
-- cancellations do, and in whatever order.
use pyqt_lsf_job_manager.Base.{
  Bool, Bool-cases, Dict, IsUnique, List, Option, String, [], any, ap, arith, filter, if_ind,
  if◌then◌else◌, inl, inr, keys, length, none, not, refl, some, string_key, subst, sum_of,
  sum_of-middle, sym, total, true, ℕ, ◌++◌, ◌+◌, ◌||◌, ◌∙◌, ◌∷◌, ◌≡◌, ◌≤◌,
}
use pyqt_lsf_job_manager.Submitting.Counting.{count, emit_progress, finish_if_done, tally}
use pyqt_lsf_job_manager.Submitting.Cycle.{
  Context, Cycle, Event, cancelled_unit, error, is_cancelled, started,
}
use pyqt_lsf_job_manager.Submitting.Sound.{IsSound, Told, one, units}
use pyqt_lsf_job_manager.Submitting.Effects.{Accounts}
use pyqt_lsf_job_manager.Submitting.Performed.{Reach-IsSound}
use pyqt_lsf_job_manager.Submitting.Outcome.{all_counted, born, launch_cycle-IsSound, total-empty}
use pyqt_lsf_job_manager.Submitting.Refusals.{Settings, new_context}
use pyqt_lsf_job_manager.Submitting.Launch.{
  Keyed, Resetting, after_reset, fan_out, launch_cycle, reset_all, reset_fields, reset_records,
  tell,
}
use pyqt_lsf_job_manager.States.{JobRecord, JobState, same_text}
use pyqt_lsf_job_manager.Store.Effects.{Result, Store, err, ok}
use pyqt_lsf_job_manager.Store.Memory.{get_jobs_by_keys}
use pyqt_lsf_job_manager.Store.Update.{transition}
use pyqt_lsf_job_manager.Util.Ledger.{Item}
use pyqt_lsf_job_manager.Lifecycle.Gate.{Activity, Gate, member}
use pyqt_lsf_job_manager.Submitting.Records.{is_record_gone}
use pyqt_lsf_job_manager.Submitting.Tasks.{Turn, perform}
use pyqt_lsf_job_manager.Submitting.Steps.{
  Reach, Step, act, cancel, cancel_scope, cancel_submit, elsewhere, here, kill, next, shut,
  shutdown,
}
use pyqt_lsf_job_manager.Submitting.Stays.{perform-Stays, runs}

any-append : (p : String → Bool) (a b : List String) → any p a ≡ true → any p (a ++ b) ≡ true
any-append p [] b h = cc
any-append p (x ∷ a) b h = ground (arith, any-append p a b)

Step-total : {c d : Cycle} → Step c d → d.context.total ≡ c.context.total
unfolding cancel_scope cancel_submit shutdown
Step-total {c} {d} (act a b w t e p) =
    subst (λ z. z.context.total ≡ c.context.total) (sym p)
      (perform-Stays "" w t (record c { works = a ++ b })).same_total
Step-total {c} {d} (kill none p) = ap (λ z. z.context.total) p
Step-total {c} {d} (kill (some ks) p) = ap (λ z. z.context.total) p
Step-total {c} {d} (cancel p) = ap (λ z. z.context.total) p
Step-total {c} {d} (shut p) = ap (λ z. z.context.total) p
Step-total {c} {d} (elsewhere s p) = ap (λ z. z.context.total) p

Reach-total : {c d : Cycle} → Reach c d → d.context.total ≡ c.context.total
Reach-total here = refl
Reach-total (next r s) = Step-total s ∙ Reach-total r

-- The job is cancelled, and at most so many tasks of it are past their last look.
abbrev pub IsStopped : String → ℕ → Cycle → Type 0
IsStopped key n c = (is_cancelled key c.context ≡ true) × (sum_of (runs key) c.works ≤ n)

Step-IsStopped :
    {c d : Cycle} (key : String) (n : ℕ) → Step c d → IsStopped key n c → IsStopped key n d
unfolding cancel_scope cancel_submit shutdown sum_of
Step-IsStopped {c} {d} key n (act a b w t e p) (h, l) =
    let c' = record c { works = a ++ b } in
    let s = perform-Stays key w t c' in
    let z : IsStopped key n (perform w t c') = (
      ap (λ v. v || member key (perform w t c').context.cancelled_keys) s.same_event
          ∙ ap (λ v. c.context.cancel_event || member key v) s.same_keys
          ∙ h,
      omega (arith, s.no_new h, l, ap (sum_of (runs key)) e, sum_of-middle (runs key) a b w),
    ) in
    subst (IsStopped key n) (sym p) z
Step-IsStopped {c} {d} key n (kill none p) (h, l) =
    subst (IsStopped key n) (sym p) (refl, omega (arith, l))
Step-IsStopped {c} {d} key n (kill (some ks) p) (h, l) = subst (IsStopped key n) (sym p) (
  ground (
    arith,
    h,
    any-append (same_text key) c.context.cancelled_keys
        (filter (λ k. not (member k c.context.cancelled_keys)) ks),
  ),
  omega (arith, l),
)
Step-IsStopped {c} {d} key n (cancel p) (h, l) =
    subst (IsStopped key n) (sym p) (refl, omega (arith, l))
Step-IsStopped {c} {d} key n (shut p) (h, l) =
    subst (IsStopped key n) (sym p) (refl, omega (arith, l))
Step-IsStopped {c} {d} key n (elsewhere s p) (h, l) = subst (IsStopped key n) (sym p) (h, l)

-- Once a kill or a cancellation has reached a job of a cycle, no task of the job passes its last look
-- at the cancellation any more, whatever happens in whatever order: the job stays cancelled, and the
-- number of its tasks past that look, whose wrappers are yet to start or run, never rises. A wrapper that
-- starts later is thus one of a task that was past the look before, and a retry that a timer holds
-- is no exception.
pub cancelled-admits_none :
    {c d : Cycle} (key : String)
    → is_cancelled key c.context ≡ true
    → Reach c d
    → (is_cancelled key d.context ≡ true) × (sum_of (runs key) d.works ≤ sum_of (runs key) c.works)
cancelled-admits_none key h here = (h, omega arith)
cancelled-admits_none {c} key h (next r s) =
    Step-IsStopped key (sum_of (runs key) c.works) s (cancelled-admits_none key h r)

count-total :
    (n now : ℕ) (x : Context) (e : List Event)
    → (count n cancelled_unit [] now x e).0.total ≡ x.total
unfolding count tally emit_progress finish_if_done
count-total n now x e = ground arith

reset_all-total :
    (blocked : List String) (fresh : String → String) (t : Turn) (previous : Dict String JobRecord)
    (keyed : List Keyed) (r : Resetting)
    → (reset_all blocked fresh t previous keyed r).cycle.context.total ≡ r.cycle.context.total
unfolding reset_all
reset_all-total blocked fresh t previous [] r = refl
reset_all-total blocked fresh t previous ((key, text) ∷ keyed) r =
    if_ind (λ (r' : Resetting). r'.cycle.context.total ≡ r.cycle.context.total) (member key blocked)
      (λ _. reset_all-total blocked fresh t previous keyed _)
      λ _.
        let o =
          transition r.cycle.context.jobset_id key (some JobState.submitting) none
            (reset_fields text (fresh key)) t.now r.cycle.store in
        let r' = record r { cycle = record r.cycle { store = o.1 } } in
        reset_all-total blocked fresh t previous keyed (after_reset key t previous o.0 r')
        ∙ same o.0 r'
  where
    same :
        (o : Result (Option JobRecord)) (r : Resetting)
        → (after_reset key t previous o r).cycle.context.total ≡ r.cycle.context.total
    same (ok none) r = refl
    same (ok (some rec)) r = refl
    same (err x) r =
        count-total 1 t.monotonic r.cycle.context
          ((if is_record_gone x then [] else error t.shown ∷ []) ++ r.cycle.events)

fan_out-total : (r : Resetting) → (fan_out r).context.total ≡ r.cycle.context.total
unfolding fan_out finish_if_done
fan_out-total r = ground arith

launch_cycle-total :
    (id : String) (keyed : List Keyed) (o : Settings) (activity : Item Activity) (gate : Gate)
    (store : Store) (fresh : String → String) (t : Turn)
    → (launch_cycle fresh t keyed (born id keyed o activity gate store)).context.total
      ≡ length (keys keyed)
unfolding launch_cycle reset_records new_context
launch_cycle-total id keyed o activity gate store fresh t =
    let c = tell started (born id keyed o activity gate store) in
    let x = c.context in
    let ks = filter (λ k. not (member k x.cancelled_keys)) (keys keyed) in
    let previous = get_jobs_by_keys id ks store in
    let r₀ : Resetting = record {
      cycle = c;
      launch = [];
      resets = [];
      stale_ids = [];
      skipped = [];
    } in
    let r = reset_all x.cancelled_keys fresh t previous keyed r₀ in
    let y = count (length r.skipped) cancelled_unit [] t.monotonic r.cycle.context r.cycle.events in
    fan_out-total (record r { cycle = record r.cycle { context = y.0; events = y.1 } })
    ∙ count-total (length r.skipped) t.monotonic r.cycle.context r.cycle.events
    ∙ reset_all-total x.cancelled_keys fresh t previous keyed r₀

module _ (id : String) (keyed : List Keyed) (o : Settings) (activity : Item Activity) (gate : Gate)
    (store : Store) (fresh : String → String) (t : Turn) where
  -- The cycle from its launch on.
  abbrev pub Running : Cycle → Type 0
  Running = Reach (launch_cycle fresh t keyed (born id keyed o activity gate store))

  runs-IsSound : {d : Cycle} → IsUnique keyed → Running d → IsSound d
  runs-IsSound u r = Reach-IsSound r (launch_cycle-IsSound id keyed o activity gate store fresh t u)

  runs-total : {d : Cycle} → Running d → d.context.total ≡ length (keys keyed)
  runs-total r = Reach-total r ∙ launch_cycle-total id keyed o activity gate store fresh t

-- A cycle for distinct keys, from its launch on, whatever its threads, timers, kills and
-- cancellations and the other writers of the store do, in whatever order: the jobs that are
-- counted, those that some thread has still to count, and the retries in the ledger are together
-- all the jobs of the launch. A counted job is counted in one way. If the cycle is finished, then
-- every job is counted, its report has been told once, it is of all the jobs, and nothing was told
-- after it but that nothing was launched; otherwise no report has been told.
pub launch_cycle-counts_once :
    (id : String) (keyed : List Keyed) (o : Settings) (activity : Item Activity) (gate : Gate)
    (store : Store) (fresh : String → String) (t : Turn) {d : Cycle}
    → IsUnique keyed
    → Running id keyed o activity gate store fresh t d
    → (d.context.done + sum_of units d.works + total one d.context.pending_retries
        ≡ length (keys keyed))
      × (d.context.done ≡ d.context.succeeded + d.context.failed + d.context.cancelled)
      × (d.context.is_finished ≡ true → d.context.done ≡ length (keys keyed))
      × Told (length (keys keyed)) d.context.is_finished d.events
launch_cycle-counts_once id keyed o activity gate store fresh t {d} u r =
    let h = runs-IsSound id keyed o activity gate store fresh t u r in
    let n = runs-total id keyed o activity gate store fresh t r in
    (
      h.conserved ∙ n,
      h.divided,
      λ f. h.ended f ∙ n,
      subst (λ m. Told m d.context.is_finished d.events) n h.told,
    )

-- A cycle for distinct keys cannot be stuck: where no thread, timer or kill has anything left to
-- do, the cycle is finished, every job is counted, and no retry is left in the ledger.
pub launch_cycle-ends :
    (id : String) (keyed : List Keyed) (o : Settings) (activity : Item Activity) (gate : Gate)
    (store : Store) (fresh : String → String) (t : Turn) {d : Cycle}
    → IsUnique keyed
    → Running id keyed o activity gate store fresh t d
    → d.works ≡ []
    → (d.context.is_finished ≡ true)
      × (d.context.done ≡ length (keys keyed))
      × (total one d.context.pending_retries ≡ 0)
unfolding sum_of
launch_cycle-ends id keyed o activity gate store fresh t {d} u r e =
    let h : Accounts [] d.context d.events =
      subst (λ ws. Accounts ws d.context d.events) e
        (runs-IsSound id keyed o activity gate store fresh t u r) in
    let all = all_counted d.context d.events h in
    (
      elim (Bool-cases d.context.is_finished) [
        | inl f ↦ f
        | inr f ↦ absurd (omega (arith, h.noticed f all))
      ],
      all ∙ runs-total id keyed o activity gate store fresh t r,
      total-empty d.context.pending_retries h.awaited,
    )
