-- ===== src/Submitting/Effects.antt =====
-- Each piece of work of a cycle (lsfmgr/submitter.py) keeps the accounts of the cycle.
use pyqt_lsf_job_manager.Submitting.Cycle.{
  Context, Cycle, Event, Kind, PendingRetry, SubmitError, Work, admitted, cancelled_unit, counting,
  deciding, entered, error, failed_unit, failing, giving_up, jobs_changed, progress, queued,
  retrying, rewriting, running, scheduling, starting,
}
use pyqt_lsf_job_manager.Submitting.Records.{
  Written, crashed, mark_cancelled, mark_crashed, vanished, wrote,
}
use pyqt_lsf_job_manager.Base.{
  Bool, Dict, List, String, [], arith, false, if_ind, if◌then◌else◌, refl, some, string_key, sum_of,
  true, ℕ, ◌∷◌, ◌≡◌, ◌≤◌,
}
use pyqt_lsf_job_manager.States.{JobRecord, same_text}
use pyqt_lsf_job_manager.Store.Effects.{Store}
use pyqt_lsf_job_manager.Submitting.Counting.{emit_progress, note_transition, tell_changed}
use pyqt_lsf_job_manager.Submitting.Tasks.{Turn, add, cancel_task, crash, note, on_written, over}
use pyqt_lsf_job_manager.Submitting.Sound.{
  IsSound, Passes, Sound, Sound-Passes, Told, holds, is_report, looks, not_finished, units, waits,
}
use pyqt_lsf_job_manager.Util.Emission.{should_emit}

-- The accounts with a work still in hand.
abbrev pub Owes : Work → Cycle → Type 0
Owes w c = IsSound (add w c)

abbrev pub Accounts : List Work → Context → List Event → Type 0
Accounts ws x e =
    Sound x.total x.done x.succeeded x.failed x.cancelled x.is_finished x.pending_retries ws e

pub Told-tell :
    (t : ℕ) (b : Bool) (ev : Event) (e : List Event)
    → b ≡ false
    → is_report ev ≡ false
    → Told t b e
    → Told t b (ev ∷ e)
Told-tell t true ev e f r h = absurd (cc)
Told-tell t false ev e f r h = rw (r, h)

pub Sound-tell :
    {t d s f x : ℕ} {b : Bool} {m : Dict String PendingRetry} {ws : List Work} (e e' : List Event)
    → Told t b e'
    → Sound t d s f x b m ws e
    → Sound t d s f x b m ws e'
Sound-tell e e' g h = record {
  divided = h.divided;
  conserved = h.conserved;
  single = h.single;
  unique = h.unique;
  awaited = h.awaited;
  noticed = h.noticed;
  told = g;
  ended = h.ended;
}

pub Told-tell_changed :
    (t : ℕ) (b : Bool) (rs : List JobRecord) (e : List Event)
    → b ≡ false
    → Told t b e
    → Told t b (tell_changed rs e)
Told-tell_changed t b [] e f h = h
Told-tell_changed t b (r ∷ rs) e f h = Told-tell t b (jobs_changed (r ∷ rs)) e f refl h

pub emit_progress-Accounts :
    (p : Bool) (now : ℕ) (x : Context) (e : List Event) (ws : List Work)
    → Accounts ws x e
    → let (x', e') = emit_progress p now x e in Accounts ws x' e'
unfolding emit_progress
emit_progress-Accounts p now x e ws h =
    let P : Context × List Event → Type 0 = λ y. Accounts ws y.0 y.1 in
    if_ind P x.is_finished (λ _. h)
      λ f.
        if_ind P (should_emit x.throttler now x.done x.total).0
          (λ _.
            Sound-tell e _
              (Told-tell_changed x.total x.is_finished x.changed_buffer _ f (
                if_ind (Told x.total x.is_finished) p
                  (λ _. Told-tell x.total x.is_finished (progress x.done x.total) e f refl h.told)
                  (λ _. h.told)))
              h)
          (λ _. h)

pub note-Owes :
    (rs : List JobRecord) (t : Turn) (w : Work) (c : Cycle) → Owes w c → Owes w (note rs t c)
unfolding note note_transition
note-Owes [] t w c h = h
note-Owes (r ∷ rs) t w c h = emit_progress-Accounts false t.monotonic _ c.events (w ∷ c.works) h

-- A work that holds the job of a key, and does nothing else.
pub record HasJob (key : String) (w : Work) : Type 0 where
  pub one_unit : units w ≡ 1
  pub holding : (k : String) → holds k w ≡ (if same_text key k then 1 else 0)
  pub no_wait : (k : String) → waits k w ≡ 0
  pub no_look : looks w ≡ 0

pub HasJob-Passes :
    (key : String) (w v : Work)
    → HasJob key w
    → units v ≡ 1
    → ((k : String) → holds k v ≤ (if same_text key k then 1 else 0))
    → Passes w (v ∷ [])
unfolding sum_of
HasJob-Passes key w v j u g = record {
  same_units = omega (arith, j.one_unit, u);
  no_more = λ k. omega (arith, j.holding k, g k);
  no_less = λ k. omega (arith, j.no_wait k);
  no_fewer = omega (arith, j.no_look);
}

-- A task that goes on.
pub goes_on :
    (key : String) (w v : Work) (c : Cycle)
    → HasJob key w
    → HasJob key v
    → Owes w c
    → IsSound (add v c)
goes_on key w v c j i h =
    Sound-Passes w (v ∷ []) c.works
      (HasJob-Passes key w v j i.one_unit (λ k. omega (arith, i.holding k))) h

pub is_over :
    (key : String) (w : Work) (kind : Kind) (rs : List JobRecord) (c : Cycle)
    → HasJob key w
    → Owes w c
    → IsSound (over key kind rs c)
is_over key w kind rs c j h =
    Sound-Passes w (counting (some key) kind rs ∷ []) c.works
      (HasJob-Passes key w _ j refl (λ k. omega arith)) h

pub Owes-not_finished :
    (key : String) (w : Work) (c : Cycle) → HasJob key w → Owes w c → c.context.is_finished ≡ false
unfolding sum_of
Owes-not_finished key w c j h =
    not_finished c.context.is_finished (w ∷ c.works) h (omega (arith, j.one_unit))

pub crash-IsSound :
    (key : String) (w : Work) (t : Turn) (c : Cycle)
    → HasJob key w
    → Owes w c
    → IsSound (crash key t c)
crash-IsSound key w t c j h =
    let f = Owes-not_finished key w c j h in
    is_over key w (failed_unit "INTERNAL_ERROR") _
      (record c {
        store = (mark_crashed c.context.jobset_id key t.shown t.now c.store).1;
        events = error t.shown ∷ c.events;
      })
      j
      (Sound-tell c.events _
        (Told-tell c.context.total c.context.is_finished (error t.shown) c.events f refl h.told) h)

pub on_written-IsSound :
    (key : String) (w : Work) (t : Turn) (r : Written × Store)
    (next : List JobRecord → Cycle → Cycle) (c : Cycle)
    → HasJob key w
    → Owes w c
    → ((rs : List JobRecord) (s : Store) → IsSound (next rs (record c { store = s })))
    → IsSound (on_written key t r next c)
on_written-IsSound key w t (wrote rs, s) next c j h n = n rs s
on_written-IsSound key w t (vanished, s) next c j h n =
    is_over key w cancelled_unit [] (record c { store = s }) j h
on_written-IsSound key w t (crashed, s) next c j h n =
    crash-IsSound key w t (record c { store = s }) j h

pub cancel_task-IsSound :
    (key : String) (w : Work) (t : Turn) (c : Cycle)
    → HasJob key w
    → Owes w c
    → IsSound (cancel_task key t c)
unfolding cancel_task
cancel_task-IsSound key w t c j h =
    on_written-IsSound key w t (mark_cancelled c.context.jobset_id key t.now c.store)
      (over key cancelled_unit) c j h
      (λ rs s. is_over key w cancelled_unit rs (record c { store = s }) j h)

pub job_queued : (key : String) (a : ℕ) → HasJob key (queued key a)
job_queued key a = record {
  one_unit = refl;
  holding = λ k. refl;
  no_wait = λ k. refl;
  no_look = refl;
}

pub job_entered : (key : String) (a : ℕ) → HasJob key (entered key a)
job_entered key a = record {
  one_unit = refl;
  holding = λ k. refl;
  no_wait = λ k. refl;
  no_look = refl;
}

pub job_starting : (key : String) (a : ℕ) → HasJob key (starting key a)
job_starting key a = record {
  one_unit = refl;
  holding = λ k. refl;
  no_wait = λ k. refl;
  no_look = refl;
}

pub job_admitted : (key : String) (a : ℕ) → HasJob key (admitted key a)
job_admitted key a = record {
  one_unit = refl;
  holding = λ k. refl;
  no_wait = λ k. refl;
  no_look = refl;
}

pub job_failing : (key : String) (a : ℕ) (e : SubmitError) → HasJob key (failing key a e)
job_failing key a e = record {
  one_unit = refl;
  holding = λ k. refl;
  no_wait = λ k. refl;
  no_look = refl;
}

pub job_deciding : (key : String) (a : ℕ) (e : SubmitError) → HasJob key (deciding key a e)
job_deciding key a e = record {
  one_unit = refl;
  holding = λ k. refl;
  no_wait = λ k. refl;
  no_look = refl;
}

pub job_rewriting : (key : String) (a : ℕ) (e : SubmitError) → HasJob key (rewriting key a e)
job_rewriting key a e = record {
  one_unit = refl;
  holding = λ k. refl;
  no_wait = λ k. refl;
  no_look = refl;
}

pub job_giving_up : (key : String) (a : ℕ) (e : SubmitError) → HasJob key (giving_up key a e)
job_giving_up key a e = record {
  one_unit = refl;
  holding = λ k. refl;
  no_wait = λ k. refl;
  no_look = refl;
}

pub job_retrying : (key : String) (a : ℕ) (rs : List JobRecord) → HasJob key (retrying key a rs)
job_retrying key a rs = record {
  one_unit = refl;
  holding = λ k. refl;
  no_wait = λ k. refl;
  no_look = refl;
}

pub job_scheduling : (key : String) (a : ℕ) → HasJob key (scheduling key a)
job_scheduling key a = record {
  one_unit = refl;
  holding = λ k. refl;
  no_wait = λ k. refl;
  no_look = refl;
}

pub job_running : (key : String) (a : ℕ) → HasJob key (running key a)
job_running key a = record {
  one_unit = refl;
  holding = λ k. refl;
  no_wait = λ k. refl;
  no_look = refl;
}
