-- ===== src/Submitting/Launched.antt =====
-- The start of a cycle of submissions (lsfmgr/submitter.py, _launch_cycle and _reset_records) opens
-- its accounts.
use pyqt_lsf_job_manager.States.Laws.{same_text_iff}
use pyqt_lsf_job_manager.Base.{
  IsUnique, List, String, [], ap, arith, false, get, if_ind, keys, length, map, none, refl,
  string_key, sum_of, sum_of-append, true, weight, ℕ, ◌++◌, ◌+◌, ◌<◌, ◌==◌, ◌∷◌, ◌≡◌,
}
use pyqt_lsf_job_manager.Submitting.Cycle.{
  Context, Event, Work, cancelled_unit, emitting, finishing, queued,
}
use pyqt_lsf_job_manager.Submitting.Counting.{count, emit_progress, tally}
use pyqt_lsf_job_manager.Submitting.Launch.{Keyed}
use pyqt_lsf_job_manager.Submitting.Sound.{Sound-Passes, holds, looks, not_finished, units, waits}
use pyqt_lsf_job_manager.Submitting.Effects.{Accounts, emit_progress-Accounts}
use pyqt_lsf_job_manager.Submitting.Performed.{finish_if_done-Accounts}

-- The tasks of keys.
abbrev pub tasks : List String → List Work
tasks = map (λ k. queued k 0)

pub sum_of-tasks :
    (f : Work → ℕ) (ks : List String) (k : String)
    → sum_of f (tasks (ks ++ k ∷ [])) ≡ sum_of f (tasks ks) + f (queued k 0)
unfolding sum_of
sum_of-tasks f [] k = omega arith
sum_of-tasks f (j ∷ ks) k = omega (arith, sum_of-tasks f ks k)

pub units-tasks : (ks : List String) → sum_of units (tasks ks) ≡ length ks
unfolding sum_of
units-tasks [] = refl
units-tasks (k ∷ ks) = omega (arith, units-tasks ks)

pub waits-tasks : (k : String) (ks : List String) → sum_of (waits k) (tasks ks) ≡ 0
unfolding sum_of
waits-tasks k [] = refl
waits-tasks k (j ∷ ks) = omega (arith, waits-tasks k ks)

pub looks-tasks : (ks : List String) → sum_of looks (tasks ks) ≡ 0
unfolding sum_of
looks-tasks [] = refl
looks-tasks (j ∷ ks) = omega (arith, looks-tasks ks)

pub holds-tasks :
    (k : String) (keyed : List Keyed)
    → IsUnique keyed
    → sum_of (holds k) (tasks (keys keyed)) ≡ weight (λ _. 1) (get k keyed)
unfolding sum_of get
holds-tasks k [] u = refl
holds-tasks k ((j, c) ∷ keyed) u = ground (
  arith,
  holds-tasks k keyed u.1,
  u.0,
  same_text_iff j k,
  ap (λ i. weight (λ _. 1) (get i keyed)),
)

-- The tasks of some keys are counted at once as cancelled.
tally-Accounts :
    (gone : List String) (x : Context) (e : List Event) (ws : List Work)
    → 0 < length gone
    → Accounts (tasks gone ++ ws) x e
    → Accounts (emitting none ∷ ws) (tally (length gone) cancelled_unit [] x) e
unfolding tally sum_of
tally-Accounts gone x e ws some_gone h =
    let parts = λ (f : Work → ℕ). sum_of-append f (tasks gone) ws in
    let f : x.is_finished ≡ false =
      not_finished x.is_finished (tasks gone ++ ws) h
        (omega (arith, parts units, units-tasks gone)) in
    record {
      divided = omega (arith, h.divided);
      conserved = omega (arith, h.conserved, parts units, units-tasks gone);
      single = λ k. omega (arith, h.single k, parts (holds k));
      unique = h.unique;
      awaited = λ k. omega (arith, h.awaited k, parts (waits k), waits-tasks k gone);
      noticed = λ o n. omega arith;
      told = h.told;
      ended = λ y. absurd (ground (arith, y, f));
    }

pub count-Accounts :
    (gone : List String) (now : ℕ) (x : Context) (e : List Event) (ws : List Work)
    → Accounts (tasks gone ++ ws) x e
    → let (x', e') = count (length gone) cancelled_unit [] now x e in Accounts ws x' e'
unfolding count
count-Accounts [] now x e ws h = h
count-Accounts (k ∷ gone) now x e ws h =
    let P : Context × List Event → Type 0 = λ y. Accounts ws y.0 y.1 in
    let x' = tally (length (k ∷ gone)) cancelled_unit [] x in
    let y = emit_progress true now x' e in
    if_ind P (length (k ∷ gone) == 0) (λ z. absurd (ground (arith, z)))
      λ _.
        finish_if_done-Accounts false none y.0 y.1 ws (λ z. cc)
          (emit_progress-Accounts true now x' e (finishing none ∷ ws) (
            Sound-Passes (emitting none) (finishing none ∷ []) ws
              (unfold sum_of in
                record {
                  same_units = refl;
                  no_more = λ i. omega arith;
                  no_less = λ i. omega arith;
                  no_fewer = omega arith;
                })
              (tally-Accounts (k ∷ gone) x e ws (omega arith) h)))
