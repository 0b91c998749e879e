-- ===== src/Statuses/Fresh.antt =====
-- lsfmgr/internal_status.py: what a caller of _ensure_fetched may rely on.
use pyqt_lsf_job_manager.Base.{
  Bool, List, Option, [], arith, false, if_ind, index_key, inl, inr, is_some, leb, nat_key, none,
  not, refl, some, string_key, subst, sym, true, ℕ, ◌++◌, ◌+◌, ◌∷◌, ◌≡◌, ◌≤◌, ◌⊎◌,
}
use pyqt_lsf_job_manager.States.{JobStatus, Time}
use pyqt_lsf_job_manager.Statuses.Source.{Source, reached}
use pyqt_lsf_job_manager.Statuses.Ledger.{read_statuses, register_interest}
use pyqt_lsf_job_manager.Statuses.Fetching.{
  System, Wake, decide, ensure_fetched, ensure_loop, start_or_takeover, statuses_by_ids, wait_once,
}

decide-fresh :
    (min_at : ℕ) (before : Option ℕ) (came : Option Bool) (s : Source)
    → decide true min_at before came s ≡ some true
    → reached s.last_fetch_at min_at ≡ true
decide-fresh min_at before none s h = absurd (cc)
decide-fresh min_at before (some false) s h = absurd (cc)
decide-fresh min_at before (some true) s h = ground arith

-- Where the loop gives up without a verdict of its own, or goes on.
abbrev IsFresh : ℕ → Option Bool × System → Type 0
IsFresh min_at r = r.0 ≡ some true → reached r.1.source.last_fetch_at min_at ≡ true

ensure_loop-IsFresh :
    (min_at deadline monotonic : ℕ) (now : Time) (ws : List Wake) (y : System)
    → IsFresh min_at (ensure_loop true min_at deadline monotonic now ws y)
unfolding ensure_loop
ensure_loop-IsFresh min_at deadline monotonic now [] y = λ h. absurd (cc)
ensure_loop-IsFresh min_at deadline monotonic now (w ∷ ws) y =
    let g = start_or_takeover monotonic now y in
    let came = wait_once monotonic deadline g.1.source.gen w g.1 in
    let before = g.1.source.last_fetch_at in
    let rest = ensure_loop true min_at deadline w.monotonic now ws came.1 in
    let P = IsFresh min_at in
    if_ind P y.source.closed (λ _ h. absurd (cc))
      λ _.
        if_ind P (reached y.source.last_fetch_at min_at) (λ e h. e)
          λ _.
            if_ind P (not g.0) (λ _ h. absurd (cc))
              (λ _.
                judged (decide true min_at before came.0 came.1.source) rest came.1
                  (decide-fresh min_at before came.0 came.1.source)
                  (ensure_loop-IsFresh min_at deadline w.monotonic now ws came.1))
  where
    judged :
        (v : Option Bool) (rest : Option Bool × System) (z : System)
        → (v ≡ some true → reached z.source.last_fetch_at min_at ≡ true)
        → IsFresh min_at rest
        → IsFresh min_at (elim v [ none ↦ rest | some b ↦ (some b, z) ])
    judged none rest z f r = r
    judged (some b) rest z f r = f

wait_once-late :
    (monotonic deadline gen : ℕ) (w : Wake) (y : System)
    → leb deadline monotonic ≡ true
    → (wait_once monotonic deadline gen w y).0 ≡ some false
unfolding wait_once
wait_once-late monotonic deadline gen w y h = ground (arith, h)

-- At the deadline the caller does not wait any more.
ensure_loop-late :
    (fresh : Bool) (min_at deadline monotonic : ℕ) (now : Time) (w : Wake) (ws : List Wake)
    (y : System)
    → deadline ≤ monotonic
    → is_some (ensure_loop fresh min_at deadline monotonic now (w ∷ ws) y).0 ≡ true
unfolding ensure_loop
ensure_loop-late fresh min_at deadline monotonic now w ws y h =
    let g = start_or_takeover monotonic now y in
    let late = wait_once-late monotonic deadline g.1.source.gen w g.1 (ground (arith, h)) in
    let came = wait_once monotonic deadline g.1.source.gen w g.1 in
    let rest = ensure_loop fresh min_at deadline w.monotonic now ws came.1 in
    let P : Option Bool × System → Type 0 = λ r. is_some r.0 ≡ true in
    if_ind P y.source.closed (λ _. refl)
      λ _.
        if_ind P (reached y.source.last_fetch_at min_at) (λ _. refl)
          λ _.
            if_ind P (not g.0) (λ _. refl)
              (λ _.
                judged (decide fresh min_at g.1.source.last_fetch_at came.0 came.1.source) rest
                  came.1
                  (subst
                    (λ v.
                      is_some (decide fresh min_at g.1.source.last_fetch_at v came.1.source) ≡ true)
                    (sym late) refl))
  where
    judged :
        (v : Option Bool) (rest : Option Bool × System) (z : System)
        → is_some v ≡ true
        → is_some
            (let r : Option Bool × System = elim v [ none ↦ rest | some b ↦ (some b, z) ] in r).0
          ≡ true
    judged none rest z v = absurd (cc)
    judged (some b) rest z v = refl

-- The loop returns if what is left of it does.
goes_on :
    (fresh : Bool) (min_at deadline monotonic : ℕ) (now : Time) (w : Wake) (ws : List Wake)
    (y : System)
    → ((z : System) → is_some (ensure_loop fresh min_at deadline w.monotonic now ws z).0 ≡ true)
    → is_some (ensure_loop fresh min_at deadline monotonic now (w ∷ ws) y).0 ≡ true
unfolding ensure_loop
goes_on fresh min_at deadline monotonic now w ws y h =
    let g = start_or_takeover monotonic now y in
    let came = wait_once monotonic deadline g.1.source.gen w g.1 in
    let rest = ensure_loop fresh min_at deadline w.monotonic now ws came.1 in
    let P : Option Bool × System → Type 0 = λ r. is_some r.0 ≡ true in
    if_ind P y.source.closed (λ _. refl)
      λ _.
        if_ind P (reached y.source.last_fetch_at min_at) (λ _. refl)
          λ _.
            if_ind P (not g.0) (λ _. refl)
              (λ _.
                judged (decide fresh min_at g.1.source.last_fetch_at came.0 came.1.source) rest
                  came.1 (h came.1))
  where
    judged :
        (v : Option Bool) (rest : Option Bool × System) (z : System)
        → is_some rest.0 ≡ true
        → is_some
            (let r : Option Bool × System = elim v [ none ↦ rest | some b ↦ (some b, z) ] in r).0
          ≡ true
    judged none rest z v = v
    judged (some b) rest z v = refl

-- The caller looks at the clock past the deadline, and then once more.
ensure_loop-returns :
    (fresh : Bool) (min_at deadline monotonic : ℕ) (now : Time) (before : List Wake) (w w' : Wake)
    (ws : List Wake) (y : System)
    → deadline ≤ w.monotonic
    → is_some (ensure_loop fresh min_at deadline monotonic now (before ++ w ∷ w' ∷ ws) y).0 ≡ true
unfolding ensure_loop
ensure_loop-returns fresh min_at deadline monotonic now [] w w' ws y h =
    goes_on fresh min_at deadline monotonic now w (w' ∷ ws) y
      (λ z. ensure_loop-late fresh min_at deadline w.monotonic now w' ws z h)
ensure_loop-returns fresh min_at deadline monotonic now (x ∷ before) w w' ws y h =
    goes_on fresh min_at deadline monotonic now x (before ++ w ∷ w' ∷ ws) y
      (λ z. ensure_loop-returns fresh min_at deadline x.monotonic now before w w' ws z h)

-- What a caller gets that asks for ids with `fresh`, whatever the threads of the fetches and the other
-- callers do while it waits. Either nothing is found and all the ids are undecided; or no id is
-- undecided, and what is found is what the ledger has for them after a fetch that began at the
-- call or later and went well (or no id was asked for). And the caller returns: if any of the times at
-- which it wakes is past the time limit of the wait, and there is one more time at which it would
-- wake, then it does not wait any more.
pub statuses_by_ids-contract :
    (ids : List ℕ) (started : ℕ) (now : Time) (ws : List Wake) (y : System)
    → let r = statuses_by_ids ids true started now ws y in
      let s = r.1.source in
      ((found : List JobStatus) (undecided : List ℕ)
        → r.0 ≡ some (found, undecided)
        → ((found ≡ []) × (undecided ≡ ids))
          ⊎ ((undecided ≡ [])
              × (found ≡ read_statuses ids s.ledger)
              × ((ids ≡ []) ⊎ (reached s.last_fetch_at started ≡ true))))
      × ((before : List Wake) (w w' : Wake) (rest : List Wake)
          → ws ≡ before ++ w ∷ w' ∷ rest
          → started + y.source.wait_timeout ≤ w.monotonic
          → is_some r.0 ≡ true)
unfolding statuses_by_ids ensure_fetched register_interest
statuses_by_ids-contract [] started now ws y =
    (λ found undecided h. inl (cc, cc), λ before w w' rest e h. refl)
statuses_by_ids-contract (n ∷ ids) started now ws y =
    let y' : System = record y { source = (register_interest (n ∷ ids) y.source).1 } in
    let deadline = started + y.source.wait_timeout in
    let r = ensure_loop true started deadline started now ws y' in
    (
      answers r (ensure_loop-IsFresh started deadline started now ws y'),
      λ before w w' rest e h. returned r (
          subst (λ v. is_some (ensure_loop true started deadline started now v y').0 ≡ true) (sym e)
            (ensure_loop-returns true started deadline started now before w w' rest y' h)),
    )
  where
    verdict : Option Bool × System → Option (List JobStatus × List ℕ)
    verdict r = elim r.0 [
      | none ↦ none
      | some false ↦ some ([], n ∷ ids)
      | some true ↦ some (read_statuses (n ∷ ids) r.1.source.ledger, [])
    ]

    answers :
        (r : Option Bool × System)
        → IsFresh started r
        → (found : List JobStatus) (undecided : List ℕ) → verdict r ≡ some (found, undecided)
        → ((found ≡ []) × (undecided ≡ n ∷ ids))
          ⊎ ((undecided ≡ [])
              × (found ≡ read_statuses (n ∷ ids) r.1.source.ledger)
              × ((n ∷ ids ≡ []) ⊎ (reached r.1.source.last_fetch_at started ≡ true)))
    answers (none, z) f found undecided h = absurd (cc)
    answers (some false, z) f found undecided h = inl (cc, cc)
    answers (some true, z) f found undecided h = inr (cc, cc, inr (f refl))

    returned : (r : Option Bool × System) → is_some r.0 ≡ true → is_some (verdict r) ≡ true
    returned (none, z) h = absurd (cc)
    returned (some false, z) h = refl
    returned (some true, z) h = refl
