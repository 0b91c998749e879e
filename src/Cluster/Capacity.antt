-- ===== src/Cluster/Capacity.antt =====
-- The slots of the hosts and the number of dispatches (mocklsf/scheduler.py).
use pyqt_lsf_job_manager.Cluster.Jobs.{Job}
use pyqt_lsf_job_manager.States.{Time}
use pyqt_lsf_job_manager.Base.{
  Bool-cases, Dict, List, Option, Option-cases, String, [], ap, arith, false, get, get-put, inl,
  inr, leb, ltb, none, or_default, some, string_key, subst, words, ℕ, ◌+◌, ◌-◌, ◌∷◌, ◌≡◌, ◌≤◌,
}
use pyqt_lsf_job_manager.Cluster.Scheduler.{
  Config, Round, best_host, better, candidates_of, dispatch_all, must_wait, occupy, pick_host,
  place, used_on,
}

-- No host has more slots taken than it has.
abbrev pub IsWithin : Config → Dict String ℕ → Type 0
IsWithin c used = (h : String) → used_on h used ≤ or_default 0 (get h c.hosts)

-- The host found so far has room for the job.
abbrev HasRoom : Config → ℕ → Dict String ℕ → Option (String × ℕ) → Type 0
HasRoom c cpus used none = Unit
HasRoom c cpus used (some (h, free)) = used_on h used + cpus ≤ or_default 0 (get h c.hosts)

better-HasRoom :
    (c : Config) (cpus : ℕ) (used : Dict String ℕ) (best : Option (String × ℕ)) (h : String)
    (free : ℕ)
    → HasRoom c cpus used best
    → used_on h used + cpus ≤ or_default 0 (get h c.hosts)
    → HasRoom c cpus used (better best h free)
better-HasRoom c cpus used none h free p q = q
better-HasRoom c cpus used (some (b, f)) h free p q = elim (Bool-cases (ltb f free)) [
  | inl e ↦ rw e q
  | inr e ↦ rw e p
]

best_host-HasRoom :
    (c : Config) (cpus : ℕ) (used : Dict String ℕ) (best : Option (String × ℕ)) (hs : List String)
    → HasRoom c cpus used best
    → HasRoom c cpus used (best_host c cpus used best hs)
unfolding best_host
best_host-HasRoom c cpus used best [] p = p
best_host-HasRoom c cpus used best (h ∷ hs) p =
    elim (Bool-cases (leb (used_on h used + cpus) (or_default 0 (get h c.hosts)))) [
      | inl e ↦ rw e (
          best_host-HasRoom c cpus used
            (better best h (or_default 0 (get h c.hosts) - used_on h used)) hs
            (better-HasRoom c cpus used best h _ p (ground arith)))
      | inr e ↦ rw e (best_host-HasRoom c cpus used best hs p)
    ]

name-HasRoom :
    (c : Config) (cpus : ℕ) (used : Dict String ℕ) (best : Option (String × ℕ)) (h : String)
    → HasRoom c cpus used best
    → elim best [ none ↦ none | some (b, _) ↦ some b ] ≡ some h
    → used_on h used + cpus ≤ or_default 0 (get h c.hosts)
name-HasRoom c cpus used none h p e = cc
name-HasRoom c cpus used (some (b, f)) h p e =
    subst (λ x. used_on x used + cpus ≤ or_default 0 (get x c.hosts)) (ground arith) p

pick_host-fits :
    (c : Config) (j : Job) (used : Dict String ℕ) (h : String)
    → pick_host c j used ≡ some h
    → used_on h used + j.num_cpus ≤ or_default 0 (get h c.hosts)
unfolding pick_host
pick_host-fits c j used h e =
    let best = best_host c j.num_cpus used none (candidates_of c (words j.requested_hosts)) in
    name-HasRoom c j.num_cpus used best h
      (best_host-HasRoom c j.num_cpus used none (candidates_of c (words j.requested_hosts)) tt) e

occupy-IsWithin :
    (c : Config) (h : String) (cpus : ℕ) (used : Dict String ℕ)
    → IsWithin c used
    → used_on h used + cpus ≤ or_default 0 (get h c.hosts)
    → IsWithin c (occupy h cpus used)
occupy-IsWithin c h cpus used w p k =
    ground (arith, get-put h (used_on h used + cpus) used k, w k, ap (λ x. get x c.hosts))

-- A round keeps to the hosts and to the number of dispatches.
pub record IsKept (c : Config) (r : Round) : Type 0 where
  pub within : IsWithin c r.used
  pub few : r.dispatched_count ≤ c.max_dispatch

place-IsKept :
    (c : Config) (now : Time) (j : Job) (r : Round)
    → IsKept c r
    → leb c.max_dispatch r.dispatched_count ≡ false
    → IsKept c (place c now j r)
place-IsKept c now j r k b = elim (Bool-cases (must_wait now j r)) [
  | inl e ↦ rw e k
  | inr e ↦ elim (Option-cases (pick_host c j r.used)) [
    | inl f ↦ rw (e, f) k
    | inr (h, f) ↦
        rw (e, f)
          (record {
            within = occupy-IsWithin c h j.num_cpus r.used k.within (pick_host-fits c j r.used h f);
            few = ground (arith, k.few);
          })
  ]
]

-- Whatever jobs are pending and whatever they ask for: a round of dispatches that starts with no host
-- over its slots, and with no more dispatches than allowed, ends so.
pub dispatch_all-IsKept :
    (c : Config) (now : Time) (js : List Job) (r : Round)
    → IsKept c r
    → IsKept c (dispatch_all c now js r)
unfolding dispatch_all
dispatch_all-IsKept c now [] r k = k
dispatch_all-IsKept c now (j ∷ js) r k = elim (Bool-cases (leb c.max_dispatch r.dispatched_count)) [
  | inl b ↦ rw b k
  | inr b ↦ rw b (dispatch_all-IsKept c now js (place c now j r) (place-IsKept c now j r k b))
]
