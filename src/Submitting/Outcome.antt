-- ===== src/Submitting/Outcome.antt =====
-- What a cycle of submissions comes to (lsfmgr/submitter.py), from its launch on.
use pyqt_lsf_job_manager.Submitting.Cycle.{
  Context, Cycle, Event, PendingRetry, Work, cancelled_unit, finishing, gate_rejected,
  records_reset, started,
}
use pyqt_lsf_job_manager.Submitting.Refusals.{Settings, new_context}
use pyqt_lsf_job_manager.Submitting.Launch.{
  Keyed, Resetting, after_reset, fan_out, launch_cycle, reset_all, reset_fields, reset_records,
  tell,
}
use pyqt_lsf_job_manager.Base.{
  Bool, Dict, IsUnique, List, Option, String, [], arith, false, filter, get, if_ind, is_empty, keys,
  length, none, not, refl, some, string_key, subst, sum_of, sum_of-append, sym, total, true,
  true_ne_false, weight, ℕ, ◌++◌, ◌∙◌, ◌∷◌, ◌≡◌, ◌≤◌,
}
use pyqt_lsf_job_manager.States.{JobRecord, JobState}
use pyqt_lsf_job_manager.Store.Effects.{Result, Store, err, ok}
use pyqt_lsf_job_manager.Store.Memory.{get_jobs_by_keys}
use pyqt_lsf_job_manager.Store.Update.{transition}
use pyqt_lsf_job_manager.Util.Ledger.{Item}
use pyqt_lsf_job_manager.Lifecycle.Gate.{Activity, Gate, member}
use pyqt_lsf_job_manager.Submitting.Counting.{count, tell_changed}
use pyqt_lsf_job_manager.Submitting.Tasks.{Turn}
use pyqt_lsf_job_manager.Submitting.Sound.{
  IsSound, Sound-IsSame, Told, holds, not_finished, one, units,
}
use pyqt_lsf_job_manager.Submitting.Effects.{Accounts, Sound-tell, Told-tell, Told-tell_changed}
use pyqt_lsf_job_manager.Submitting.Performed.{finish_if_done-Accounts}
use pyqt_lsf_job_manager.Submitting.Launched.{count-Accounts, holds-tasks, tasks, units-tasks}
use pyqt_lsf_job_manager.Submitting.Opened.{Opens, reset_all-Opens}
use pyqt_lsf_job_manager.Submitting.Retries.{adds}

no_tasks :
    (l : List String) (x : Context) (e : List Event)
    → Accounts (tasks l ++ []) x e
    → x.is_finished ≡ true
    → l ≡ []
unfolding sum_of
no_tasks [] x e h f = refl
no_tasks (k ∷ l) x e h f =
    absurd
      (true_ne_false (sym (not_finished x.is_finished (tasks (k ∷ l) ++ []) h (omega arith)) ∙ f))

Told-late :
    (t : ℕ) (b : Bool) (e : List Event) → b ≡ true → Told t b e → Told t b (gate_rejected ∷ e)
Told-late t true e f h = h
Told-late t false e f h = cc

-- With no work there is no retry either, so that all the jobs are counted.
pub total-empty :
    (m : Dict String PendingRetry) → ((k : String) → weight one (get k m) ≤ 0) → total one m ≡ 0
unfolding total get
total-empty [] h = refl
total-empty ((k, p) ∷ m) h = absurd (ground (arith, h k))

pub all_counted : (x : Context) (e : List Event) → Accounts [] x e → x.done ≡ x.total
unfolding sum_of
all_counted x e h = omega (arith, h.conserved, total-empty x.pending_retries h.awaited)

fan_out-IsSound :
    (r : Resetting)
    → r.cycle.works ≡ []
    → Accounts (tasks r.launch ++ r.cycle.works) r.cycle.context r.cycle.events
    → IsSound (fan_out r)
unfolding fan_out
fan_out-IsSound r none_yet h₀ =
    let c = r.cycle in
    let x = c.context in
    let h : Accounts (tasks r.launch ++ []) x c.events =
      subst (λ ws. Accounts (tasks r.launch ++ ws) x c.events) none_yet h₀ in
    let ev = tell_changed r.resets (records_reset r.resets ∷ c.events) in
    if_ind IsSound x.is_finished
      (λ f. Sound-tell c.events _ (Told-late x.total x.is_finished c.events f h.told) (
        subst (λ ws. Accounts ws x c.events) (sym none_yet)
          (subst (λ l. Accounts (tasks l ++ []) x c.events) (no_tasks r.launch x c.events h f) h)))
      λ f.
        let open_still : Accounts (tasks r.launch ++ []) x ev =
          Sound-tell c.events ev
            (Told-tell_changed x.total x.is_finished r.resets (records_reset r.resets ∷ c.events) f
              (Told-tell x.total x.is_finished (records_reset r.resets) c.events f refl h.told))
            h in
        let ready : Cycle = record c { events = ev; works = tasks r.launch ++ c.works } in
        let sound : IsSound ready =
          subst (λ ws. Accounts (tasks r.launch ++ ws) x ev) (sym none_yet) open_still in
        if_ind IsSound (is_empty r.launch)
          (λ n.
            let nil : r.launch ≡ [] = ground (arith, n) in
            let empty : Accounts [] x ev =
              subst (λ l. Accounts (tasks l ++ []) x ev) nil open_still in
            finish_if_done-Accounts true none x ev (tasks r.launch ++ c.works)
              (λ _. all_counted x ev empty) (adds (finishing none) ready refl (λ k. refl) sound))
          (λ _. sound)

reset_all-works :
    (blocked : List String) (fresh : String → String) (t : Turn) (previous : Dict String JobRecord)
    (keyed : List Keyed) (r : Resetting)
    → (reset_all blocked fresh t previous keyed r).cycle.works ≡ r.cycle.works
unfolding reset_all
reset_all-works blocked fresh t previous [] r = refl
reset_all-works blocked fresh t previous ((key, text) ∷ keyed) r =
    if_ind (λ (r' : Resetting). r'.cycle.works ≡ r.cycle.works) (member key blocked)
      (λ _. reset_all-works blocked fresh t previous keyed _)
      λ _.
        let o =
          transition r.cycle.context.jobset_id key (some JobState.submitting) none
            (reset_fields text (fresh key)) t.now r.cycle.store in
        let r' = record r { cycle = record r.cycle { store = o.1 } } in
        reset_all-works blocked fresh t previous keyed (after_reset key t previous o.0 r')
        ∙ same o.0 r'
  where
    same :
        (o : Result (Option JobRecord)) (r : Resetting)
        → (after_reset key t previous o r).cycle.works ≡ r.cycle.works
    same (ok none) r = refl
    same (ok (some rec)) r = refl
    same (err e) r = refl

-- The cycle that `_new_context` makes for some commands, before its launch.
abbrev pub born : String → List Keyed → Settings → Item Activity → Gate → Store → Cycle
born id keyed o activity gate store = record {
  context = (new_context id (keys keyed) o activity gate).0;
  store = store;
  works = [];
  events = [];
  is_shut_down = false;
}

pub launch_cycle-IsSound :
    (id : String) (keyed : List Keyed) (o : Settings) (activity : Item Activity) (gate : Gate)
    (store : Store) (fresh : String → String) (t : Turn)
    → IsUnique keyed
    → IsSound (launch_cycle fresh t keyed (born id keyed o activity gate store))
unfolding launch_cycle reset_records new_context sum_of total get
launch_cycle-IsSound id [] o activity gate store fresh t u =
    let c = tell started (born id [] o activity gate store) in
    finish_if_done-Accounts true none c.context (records_reset [] ∷ c.events) [] (λ _. refl)
      (record {
        divided = refl;
        conserved = omega arith;
        single = λ k. omega arith;
        unique = tt;
        awaited = λ k. omega arith;
        noticed = λ f n. omega arith;
        told = refl;
        ended = λ f. cc;
      })
launch_cycle-IsSound id (e ∷ rest) o activity gate store fresh t u =
    let keyed : List Keyed = e ∷ rest in
    let c = tell started (born id keyed o activity gate store) in
    let x = c.context in
    let ks = filter (λ k. not (member k x.cancelled_keys)) (keys keyed) in
    let previous = get_jobs_by_keys id ks store in
    let r₀ : Resetting = record {
      cycle = c;
      launch = [];
      resets = [];
      stale_ids = [];
      skipped = [];
    } in
    let parts = λ (f : Work → ℕ). sum_of-append f (tasks (keys keyed)) [] in
    let start : Opens r₀ (keys keyed) = record {
      divided = refl;
      conserved = omega (arith, parts units, units-tasks (keys keyed));
      single = λ k. ground (arith, parts (holds k), holds-tasks k keyed u);
      unique = tt;
      awaited = λ k. omega arith;
      noticed = λ f n. absurd (omega arith);
      told = refl;
      ended = λ f. cc;
    } in
    let r = reset_all x.cancelled_keys fresh t previous keyed r₀ in
    let y = count (length r.skipped) cancelled_unit [] t.monotonic r.cycle.context r.cycle.events in
    let works : r.cycle.works ≡ [] = reset_all-works x.cancelled_keys fresh t previous keyed r₀ in
    fan_out-IsSound (record r { cycle = record r.cycle { context = y.0; events = y.1 } }) works
      (count-Accounts r.skipped t.monotonic r.cycle.context r.cycle.events
        (tasks r.launch ++ r.cycle.works)
        (Sound-IsSame
          (λ f. omega (
            arith,
            sum_of-append f (tasks r.launch) (tasks r.skipped ++ ([] ++ r.cycle.works)),
            sum_of-append f (tasks r.skipped) ([] ++ r.cycle.works),
            sum_of-append f (tasks r.skipped) (tasks r.launch ++ r.cycle.works),
            sum_of-append f (tasks r.launch) r.cycle.works,
          ))
          (reset_all-Opens x.cancelled_keys fresh t previous keyed r₀ start)))
