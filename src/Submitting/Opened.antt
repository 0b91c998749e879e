-- ===== src/Submitting/Opened.antt =====
-- The accounts through the loop of the resets of a cycle (lsfmgr/submitter.py, _reset_records and
-- _launch_cycle).
use pyqt_lsf_job_manager.Lifecycle.Gate.{member}
use pyqt_lsf_job_manager.Base.{
  Dict, List, Option, String, [], any, arith, false, if_ind, if◌then◌else◌, keys, none, refl, some,
  string_key, sum_of, sum_of-append, ℕ, ◌++◌, ◌+◌, ◌∷◌, ◌≡◌,
}
use pyqt_lsf_job_manager.States.{JobRecord, JobState}
use pyqt_lsf_job_manager.Store.Effects.{Result, err, ok}
use pyqt_lsf_job_manager.Store.Update.{transition}
use pyqt_lsf_job_manager.Submitting.Cycle.{Event, Work, error}
use pyqt_lsf_job_manager.Submitting.Records.{is_record_gone}
use pyqt_lsf_job_manager.Submitting.Tasks.{Turn}
use pyqt_lsf_job_manager.Submitting.Launch.{Keyed, Resetting, after_reset, reset_all, reset_fields}
use pyqt_lsf_job_manager.Submitting.Sound.{
  IsSame, Sound-IsSame, Told, is_report, not_finished, units,
}
use pyqt_lsf_job_manager.Submitting.Effects.{Accounts, Sound-tell, Told-tell}
use pyqt_lsf_job_manager.Submitting.Launched.{count-Accounts, sum_of-tasks, tasks}

-- What the loop owes: the tasks that it launches, those that it skips, and those of the keys left.
abbrev pub left : Resetting → List String → List Work
left r ks = tasks r.launch ++ (tasks r.skipped ++ (tasks ks ++ r.cycle.works))

abbrev pub Opens : Resetting → List String → Type 0
Opens r ks = Accounts (left r ks) r.cycle.context r.cycle.events

sum_of-left :
    (l m n : List String) (ws : List Work) (f : Work → ℕ)
    → sum_of f (tasks l ++ (tasks m ++ (tasks n ++ ws)))
      ≡ sum_of f (tasks l) + sum_of f (tasks m) + sum_of f (tasks n) + sum_of f ws
sum_of-left l m n ws f = omega (
  arith,
  sum_of-append f (tasks l) (tasks m ++ (tasks n ++ ws)),
  sum_of-append f (tasks m) (tasks n ++ ws),
  sum_of-append f (tasks n) ws,
)

-- The next key is launched, or its task comes first.
launched :
    (l m n : List String) (k : String) (ws : List Work)
    → IsSame
        (tasks l ++ (tasks m ++ (tasks (k ∷ n) ++ ws)))
        (tasks (l ++ k ∷ []) ++ (tasks m ++ (tasks n ++ ws)))
unfolding sum_of
launched l m n k ws f =
    omega
      (arith, sum_of-left l m (k ∷ n) ws f, sum_of-left (l ++ k ∷ []) m n ws f, sum_of-tasks f l k)

skips :
    (l m n : List String) (k : String) (ws : List Work)
    → IsSame
        (tasks l ++ (tasks m ++ (tasks (k ∷ n) ++ ws)))
        (tasks l ++ (tasks (m ++ k ∷ []) ++ (tasks n ++ ws)))
unfolding sum_of
skips l m n k ws f =
    omega
      (arith, sum_of-left l m (k ∷ n) ws f, sum_of-left l (m ++ k ∷ []) n ws f, sum_of-tasks f m k)

comes_first :
    (l m n : List String) (k : String) (ws : List Work)
    → IsSame
        (tasks l ++ (tasks m ++ (tasks (k ∷ n) ++ ws)))
        (tasks (k ∷ []) ++ (tasks l ++ (tasks m ++ (tasks n ++ ws))))
unfolding sum_of
comes_first l m n k ws f = omega (arith, sum_of-left l m (k ∷ n) ws f, sum_of-left l m n ws f)

Opens-tell :
    (ev : List Event) (r : Resetting) (k : String) (ks : List String)
    → any is_report ev ≡ false
    → Opens r (k ∷ ks)
    → Accounts (left r (k ∷ ks)) r.cycle.context (ev ++ r.cycle.events)
unfolding sum_of
Opens-tell ev r k ks q h =
    let f =
      not_finished r.cycle.context.is_finished (left r (k ∷ ks)) h
        (omega (arith, sum_of-left r.launch r.skipped (k ∷ ks) r.cycle.works units)) in
    Sound-tell r.cycle.events _ (tells ev q f) h
  where
    tells :
        (ev : List Event)
        → any is_report ev ≡ false
        → r.cycle.context.is_finished ≡ false
        → Told r.cycle.context.total r.cycle.context.is_finished (ev ++ r.cycle.events)
    tells [] q f = h.told
    tells (v ∷ vs) q f =
        Told-tell r.cycle.context.total r.cycle.context.is_finished v (vs ++ r.cycle.events) f
          (ground (arith, q)) (tells vs (ground (arith, q)) f)

after_reset-Opens :
    (key : String) (t : Turn) (previous : Dict String JobRecord) (o : Result (Option JobRecord))
    (r : Resetting) (ks : List String)
    → Opens r (key ∷ ks)
    → Opens (after_reset key t previous o r) ks
after_reset-Opens key t previous (ok none) r ks h =
    Sound-IsSame (launched r.launch r.skipped ks key r.cycle.works) h
after_reset-Opens key t previous (ok (some rec)) r ks h =
    Sound-IsSame (launched r.launch r.skipped ks key r.cycle.works) h
after_reset-Opens key t previous (err x) r ks h =
    let ev : List Event = if is_record_gone x then [] else error t.shown ∷ [] in
    let quiet : any is_report ev ≡ false =
      if_ind (λ (l : List Event). any is_report l ≡ false) (is_record_gone x) {x = []}
        {y = error t.shown ∷ []} (λ _. refl) (λ _. refl) in
    count-Accounts (key ∷ []) t.monotonic r.cycle.context (ev ++ r.cycle.events) (left r ks) (
      Sound-IsSame (comes_first r.launch r.skipped ks key r.cycle.works)
        (Opens-tell ev r key ks quiet h))

pub reset_all-Opens :
    (blocked : List String) (fresh : String → String) (t : Turn) (previous : Dict String JobRecord)
    (keyed : List Keyed) (r : Resetting)
    → Opens r (keys keyed)
    → Opens (reset_all blocked fresh t previous keyed r) []
unfolding reset_all
reset_all-Opens blocked fresh t previous [] r h = h
reset_all-Opens blocked fresh t previous ((key, text) ∷ keyed) r h =
    if_ind (λ r'. Opens r' []) (member key blocked)
      (λ _.
        reset_all-Opens blocked fresh t previous keyed
          (record r { skipped = r.skipped ++ key ∷ [] })
          (Sound-IsSame (skips r.launch r.skipped (keys keyed) key r.cycle.works) h))
      λ _.
        let o =
          transition r.cycle.context.jobset_id key (some JobState.submitting) none
            (reset_fields text (fresh key)) t.now r.cycle.store in
        let r' = record r { cycle = record r.cycle { store = o.1 } } in
        reset_all-Opens blocked fresh t previous keyed (after_reset key t previous o.0 r')
          (after_reset-Opens key t previous o.0 r' (keys keyed) h)
