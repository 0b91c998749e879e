-- ===== src/Killing/Parts.antt =====
-- The accounts of a kill (lsfmgr/killer.py, _kill_confirm and _confirm_by_query).
use pyqt_lsf_job_manager.Killing.Targets.{
  whole, element, range, odd, is_hit, form_of, Form, parent_of,
}
use pyqt_lsf_job_manager.States.{JobStatus, is_on_lsf}
use pyqt_lsf_job_manager.Base.{
  Bool, Bool-cases, List, Option, Option-cases, String, [], any, arith, false, filter, inl, inr,
  is_empty, none, not, refl, some, string_key, suc, true, zero, ℕ, ◌&&◌, ◌+◌, ◌==◌, ◌∷◌, ◌≡◌, ◌≤◌,
  ◌⊎◌,
}
use pyqt_lsf_job_manager.Lifecycle.Gate.{inter, member, union}
use pyqt_lsf_job_manager.Lifecycle.Refusal.{member-filter, member-inter, member-union}
use pyqt_lsf_job_manager.Polling.Cycle.{Answer}
use pyqt_lsf_job_manager.Killing.Confirm.{
  Progress, Reply, confirm_by_query, is_gone, judge_target, kill_confirm, kill_round, kill_rounds,
  look_up_unknown, minus,
}

-- What is pending is what is not resolved of the targets.
abbrev IsAccounted : List String → Progress → Type 0
IsAccounted targets p =
    (t : String) → member t p.pending ≡ (member t targets && not (member t p.resolved_all))

look_up_unknown-IsAccounted :
    (targets : List String) (answer : Option Answer) (ts : List String) (p : Progress)
    → IsAccounted targets p
    → IsAccounted targets (look_up_unknown answer ts p)
look_up_unknown-IsAccounted targets answer [] p h t = h t
look_up_unknown-IsAccounted targets answer (x ∷ ts) p h t =
    let gone = (confirm_by_query answer (x ∷ ts)).0 in
    ground (
      arith,
      h t,
      member-filter t (λ k. not (member k gone)) p.pending,
      member-union t p.resolved_all gone,
    )

kill_round-IsAccounted :
    (targets : List String) (r : Reply) (answer : Option Answer) (p : Progress)
    → IsAccounted targets p
    → IsAccounted targets (kill_round r answer p)
unfolding kill_round
kill_round-IsAccounted targets r answer p h =
    let p' : Progress = record p {
      pending = minus p.pending r.resolved;
      accepted_all = union p.accepted_all r.accepted;
      resolved_all = union p.resolved_all r.resolved;
      call_count = p.call_count + r.calls;
    } in
    look_up_unknown-IsAccounted targets answer (inter r.timed_out p'.pending) p' (λ t. ground (
      arith,
      h t,
      member-filter t (λ k. not (member k r.resolved)) p.pending,
      member-union t p.resolved_all r.resolved,
    ))

kill_rounds-IsAccounted :
    (targets : List String) (bkill : ℕ → List String → Reply)
    (ask : ℕ → List String → Option Answer) (retries : ℕ) (p : Progress)
    → IsAccounted targets p
    → IsAccounted targets (kill_rounds bkill ask retries p)
unfolding kill_rounds
kill_rounds-IsAccounted targets bkill ask zero p h = kill_round-IsAccounted targets _ _ p h
kill_rounds-IsAccounted targets bkill ask (suc retries) p h =
    let p' = kill_round (bkill p.attempt p.pending) (ask p.attempt p.pending) p in
    let k =
      kill_round-IsAccounted targets (bkill p.attempt p.pending) (ask p.attempt p.pending) p h in
    elim (Bool-cases (is_empty p'.pending)) [
      | inl e ↦ rw e k
      | inr e ↦ rw e (
          kill_rounds-IsAccounted targets bkill ask retries (record p' { attempt = p'.attempt + 1 })
            k)
    ]

attempt-kill_round :
    (r : Reply) (answer : Option Answer) (p : Progress)
    → (kill_round r answer p).attempt ≡ p.attempt
unfolding kill_round
attempt-kill_round r answer p = attempt-look_up answer _ _
  where
    attempt-look_up :
        (answer : Option Answer) (ts : List String) (q : Progress)
        → (look_up_unknown answer ts q).attempt ≡ q.attempt
    attempt-look_up answer [] q = refl
    attempt-look_up answer (t ∷ ts) q = refl

attempt-kill_rounds :
    (bkill : ℕ → List String → Reply) (ask : ℕ → List String → Option Answer) (retries : ℕ)
    (p : Progress)
    → let q = kill_rounds bkill ask retries p in
      (q.attempt ≤ p.attempt + retries)
      × ((is_empty q.pending ≡ true) ⊎ (q.attempt ≡ p.attempt + retries))
unfolding kill_rounds
attempt-kill_rounds bkill ask zero p =
    let e = attempt-kill_round (bkill p.attempt p.pending) (ask p.attempt p.pending) p in
    (omega (arith, e), inr (omega (arith, e)))
attempt-kill_rounds bkill ask (suc retries) p =
    let p' = kill_round (bkill p.attempt p.pending) (ask p.attempt p.pending) p in
    let e = attempt-kill_round (bkill p.attempt p.pending) (ask p.attempt p.pending) p in
    let (a, b) = attempt-kill_rounds bkill ask retries (record p' { attempt = p'.attempt + 1 }) in
    elim (Bool-cases (is_empty p'.pending)) [
      | inl f ↦ rw f (omega (arith, e), inl f)
      | inr f ↦
          rw f (omega (arith, a, e), elim b [ inl x ↦ inl x | inr y ↦ inr (omega (arith, y, e)) ])
    ]

-- Whatever bkill replies and the status source answers: a kill ends with each target either resolved or
-- unconfirmed and never both, marks only targets that are resolved, retries at most as often as it
-- may, and stops early only if nothing is unconfirmed.
pub kill_confirm-accounts :
    (bkill : ℕ → List String → Reply) (ask : ℕ → List String → Option Answer) (max_retry : ℕ)
    (targets : List String)
    → let c = kill_confirm bkill ask max_retry targets in
      ((t : String)
        → member t c.unconfirmed ≡ (member t targets && not (member t c.resolved_targets)))
      × ((t : String) → member t c.marked ≡ true → member t c.resolved_targets ≡ true)
      × (c.retries_made ≤ max_retry)
      × ((is_empty c.unconfirmed ≡ true) ⊎ (c.retries_made ≡ max_retry))
unfolding kill_confirm
kill_confirm-accounts bkill ask max_retry targets =
    let p₀ : Progress = record {
      pending = targets;
      accepted_all = [];
      resolved_all = [];
      call_count = 0;
      attempt = 0;
    } in
    let p = kill_rounds bkill ask max_retry p₀ in
    let (few, early) = attempt-kill_rounds bkill ask max_retry p₀ in
    (
      kill_rounds-IsAccounted targets bkill ask max_retry p₀ (λ t. ground arith),
      λ t m. ground (arith, member-inter t p.accepted_all p.resolved_all),
      omega (arith, few),
      elim early [ inl e ↦ inl e | inr e ↦ inr (omega (arith, e)) ],
    )

abbrev pub alive : JobStatus → Bool
alive st = is_on_lsf st.state

is_hit-parent :
    (f : Form) (st : JobStatus) (id : ℕ)
    → is_hit f st ≡ true
    → parent_of f ≡ some id
    → (st.job_id == id) ≡ true
unfolding is_hit
is_hit-parent (whole n) st id h e = ground arith
is_hit-parent (element n i) st id h e = ground arith
is_hit-parent (range n low high) st id h e = ground arith
is_hit-parent (odd none) st id h e = cc
is_hit-parent (odd (some n)) st id h e = ground arith

hits-mine :
    (f : Form) (id : ℕ) (sts : List JobStatus)
    → parent_of f ≡ some id
    → any alive (filter (is_hit f) sts)
      ≡ any alive (filter (is_hit f) (filter (λ st. st.job_id == id) sts))
hits-mine f id [] e = refl
hits-mine f id (st ∷ sts) e = elim (Bool-cases (is_hit f st)) [
  | inl h ↦ ground (arith, is_hit-parent f st id h e, hits-mine f id sts e)
  | inr h ↦ ground (arith, hits-mine f id sts e)
]

-- A target that the lookup after a timeout of bkill takes as over has an id whose query did not fail,
-- and no row of the answer that the target means is still on LSF.
pub judge_target-dead :
    (a : Answer) (t : String)
    → is_gone (judge_target a t) ≡ true
    → (id : ℕ) × (parent_of (form_of t) ≡ some id)
      × (any (λ n. n == id) a.failed ≡ false)
      × (any alive (filter (is_hit (form_of t)) a.statuses) ≡ false)
unfolding judge_target
judge_target-dead a t h = elim (Option-cases (parent_of (form_of t))) [
  | inl e ↦ absurd (ground arith)
  | inr (id, e) ↦ (id, e, ground arith, ground (arith, hits-mine (form_of t) id a.statuses e))
]
