-- ===== src/Cluster/Settled.antt =====
-- The jobs that a cycle of the scheduler does not move (mocklsf/scheduler.py, with the
-- compare-and-set of mocklsf/db.py).
use pyqt_lsf_job_manager.Base.{
  All, Bool, Bool-cases, List, Option-cases, [], ap, arith, false, filter, get_elem?, inl, inr, leb,
  refl, some, string_key, suc, sym, true, true_ne_false, zero, ℕ, ◌++◌, ◌∙◌, ◌∷◌, ◌≡◌,
}
use pyqt_lsf_job_manager.States.{Time}
use pyqt_lsf_job_manager.Cluster.Jobs.{Job, Stat, is_occupying, same_stat, stat_rank}
use pyqt_lsf_job_manager.Cluster.Database.{
  Database, goes_before, insert_by, is_as_read, jobs_in_states, log_event, sort_by, update_guarded,
  update_guarded_many,
}
use pyqt_lsf_job_manager.Cluster.Scheduler.{
  Config, Round, advance, advance_all, apply_transitions, dispatch, dispatch_all, event_of, log_all,
  must_wait, pick_host, place, queued_before, tick,
}

-- The states that the scheduler moves a job from.
abbrev pub may_move : Stat → Bool
may_move Stat.pend = true
may_move Stat.run = true
may_move Stat.ssusp = true
may_move _ = false

abbrev Moves : Job × Job → Type 0
Moves (j, prev) = may_move prev.stat ≡ true

stats : List Stat
stats = Stat.pend ∷ Stat.run ∷ Stat.done ∷ Stat.exit ∷ Stat.psusp ∷ Stat.ususp ∷ Stat.ssusp ∷ []

get_elem?-stat_rank : (a : Stat) → get_elem? stats (stat_rank a) ≡ some a
unfolding stats
get_elem?-stat_rank Stat.pend = refl
get_elem?-stat_rank _ = refl

stat_rank-injective : (a b : Stat) → stat_rank a ≡ stat_rank b → a ≡ b
stat_rank-injective a b h =
    cc (get_elem?-stat_rank a, get_elem?-stat_rank b, ap (get_elem? stats) h)

is_as_read-stat : (prev row : Job) → is_as_read prev row ≡ true → row.stat ≡ prev.stat
unfolding is_as_read
is_as_read-stat prev row h = stat_rank-injective row.stat prev.stat (ground arith)

settled-unread :
    (p : Job × Job) (row : Job) → Moves p → may_move row.stat ≡ false → is_as_read p.1 row ≡ false
settled-unread (j, prev) row m s = elim (Bool-cases (is_as_read prev row)) [
  | inl e ↦ absurd (true_ne_false (sym s ∙ ap may_move (is_as_read-stat prev row e) ∙ m))
  | inr e ↦ e
]

get_elem?-update_guarded :
    (j prev row : Job) (rows : List Job) (i : ℕ)
    → get_elem? rows i ≡ some row
    → is_as_read prev row ≡ false
    → get_elem? (update_guarded j prev rows) i ≡ some row
unfolding update_guarded
get_elem?-update_guarded j prev row [] i e n = cc
get_elem?-update_guarded j prev row (r ∷ rows) zero e n =
    let q : r ≡ row = ground arith in ground (arith, ap (is_as_read prev) q)
get_elem?-update_guarded j prev row (r ∷ rows) (suc i) e n =
    get_elem?-update_guarded j prev row rows i e n

get_elem?-update_guarded_many :
    (pairs : List (Job × Job)) (row : Job) (rows : List Job) (i : ℕ)
    → All Moves pairs
    → may_move row.stat ≡ false
    → get_elem? rows i ≡ some row
    → get_elem? (update_guarded_many pairs rows).1 i ≡ some row
unfolding update_guarded_many
get_elem?-update_guarded_many [] row rows i m s e = e
get_elem?-update_guarded_many ((j, prev) ∷ pairs) row rows i (p, m) s e =
    get_elem?-update_guarded_many pairs row (update_guarded j prev rows) i m s
      (get_elem?-update_guarded j prev row rows i e (settled-unread (j, prev) row p s))

log_all-rows :
    (now : Time) (applied : List (Job × Job)) (d : Database) → (log_all now applied d).rows ≡ d.rows
unfolding log_all log_event
log_all-rows now [] d = refl
log_all-rows now ((j, prev) ∷ applied) d =
    log_all-rows now applied (log_event (event_of now j prev) d)

apply_transitions-settled :
    (now : Time) (pairs : List (Job × Job)) (d : Database) (row : Job) (i : ℕ)
    → All Moves pairs
    → may_move row.stat ≡ false
    → get_elem? d.rows i ≡ some row
    → get_elem? (apply_transitions now pairs d).rows i ≡ some row
unfolding apply_transitions
apply_transitions-settled now pairs d row i m s e =
    let (applied, rows) = update_guarded_many pairs d.rows in
    ap (λ rs. get_elem? rs i) (log_all-rows now applied (record d { rows = rows }))
    ∙ get_elem?-update_guarded_many pairs row d.rows i m s e

-- Selections from the table keep what they select by.
module _ (P : Job → Type 0) where
  All-insert_by :
      (before : Job → Job → Bool) (a : Job) (js : List Job)
      → P a
      → All P js
      → All P (insert_by before a js)
  unfolding insert_by
  All-insert_by before a [] p h = (p, tt)
  All-insert_by before a (b ∷ js) p (q, h) = elim (Bool-cases (before a b)) [
    | inl e ↦ rw e (p, (q, h))
    | inr e ↦ rw e (q, All-insert_by before a js p h)
  ]

  All-sort_by : (before : Job → Job → Bool) (js : List Job) → All P js → All P (sort_by before js)
  unfolding sort_by
  All-sort_by before [] h = tt
  All-sort_by before (j ∷ js) (p, h) =
      All-insert_by before j (sort_by before js) p (All-sort_by before js h)

selected :
    (p : Stat → Bool) (js : List Job) → All (λ j. p j.stat ≡ true) (filter (λ j. p j.stat) js)
selected p [] = tt
selected p (j ∷ js) = elim (Bool-cases (p j.stat)) [
  | inl e ↦ rw e (e, selected p js)
  | inr e ↦ rw e (selected p js)
]

jobs_in_states-selected :
    (p : Stat → Bool) (d : Database) → All (λ j. p j.stat ≡ true) (jobs_in_states p d)
unfolding jobs_in_states
jobs_in_states-selected p d =
    All-sort_by (λ j. p j.stat ≡ true) goes_before (filter (λ j. p j.stat) d.rows)
      (selected p d.rows)

occupying-may_move :
    (s : Stat) → is_occupying s ≡ true → same_stat s Stat.ususp ≡ false → may_move s ≡ true
occupying-may_move s o u = grind arith

advance-Moves :
    (now : Time) (j j' : Job)
    → is_occupying j.stat ≡ true
    → advance now j ≡ some j'
    → may_move j.stat ≡ true
unfolding advance
advance-Moves now j j' o e = elim (Bool-cases (same_stat j.stat Stat.ususp)) [
  | inl b ↦ absurd (ground arith)
  | inr b ↦ occupying-may_move j.stat o b
]

advance_all-Moves :
    (now : Time) (js : List Job)
    → All (λ j. is_occupying j.stat ≡ true) js
    → All Moves (advance_all now js)
unfolding advance_all
advance_all-Moves now [] h = tt
advance_all-Moves now (j ∷ js) (o, h) = elim (Option-cases (advance now j)) [
  | inl e ↦ rw (e, All) (advance_all-Moves now js h)
  | inr (j', e) ↦ rw (e, All) (advance-Moves now j j' o e, advance_all-Moves now js h)
]

All-snoc :
    (ps : List (Job × Job)) (p : Job × Job) → All Moves ps → Moves p → All Moves (ps ++ p ∷ [])
All-snoc [] p h m = (m, tt)
All-snoc (q ∷ ps) p (n, h) m = (n, All-snoc ps p h m)

abbrev IsPending : Job → Type 0
IsPending j = same_stat j.stat Stat.pend ≡ true

place-Moves :
    (c : Config) (now : Time) (j : Job) (r : Round)
    → IsPending j
    → All Moves r.changed
    → All Moves (place c now j r).changed
place-Moves c now j r p h = elim (Bool-cases (must_wait now j r)) [
  | inl e ↦ rw e h
  | inr e ↦ elim (Option-cases (pick_host c j r.used)) [
    | inl f ↦ rw (e, f) h
    | inr (host, f) ↦
        rw (e, f)
          (All-snoc r.changed (dispatch j host now, j) h
            (ap may_move (stat_rank-injective j.stat Stat.pend (ground arith))))
  ]
]

dispatch_all-Moves :
    (c : Config) (now : Time) (js : List Job) (r : Round)
    → All IsPending js
    → All Moves r.changed
    → All Moves (dispatch_all c now js r).changed
unfolding dispatch_all
dispatch_all-Moves c now [] r p h = h
dispatch_all-Moves c now (j ∷ js) r (p, q) h =
    elim (Bool-cases (leb c.max_dispatch r.dispatched_count)) [
      | inl b ↦ rw b h
      | inr b ↦ rw b (dispatch_all-Moves c now js (place c now j r) q (place-Moves c now j r p h))
    ]

-- A cycle of the scheduler leaves the row of every job as it is that has ended or that the user
-- suspended, at its place of the table.
pub tick-settled :
    (c : Config) (now : Time) (d : Database) (i : ℕ) (row : Job)
    → get_elem? d.rows i ≡ some row
    → may_move row.stat ≡ false
    → get_elem? (tick c now d).rows i ≡ some row
unfolding tick
tick-settled c now d i row e s =
    let advanced = advance_all now (jobs_in_states is_occupying d) in
    let d₁ = apply_transitions now advanced d in
    let m₁ = advance_all-Moves now _ (jobs_in_states-selected is_occupying d) in
    let e₁ = apply_transitions-settled now advanced d row i m₁ s e in
    let pend = jobs_in_states (λ a. same_stat a Stat.pend) d₁ in
    let pending =
      All-sort_by IsPending (queued_before c) pend
        (jobs_in_states-selected (λ a. same_stat a Stat.pend) d₁) in
    apply_transitions-settled now _ d₁ row i (dispatch_all-Moves c now _ _ pending tt) s e₁
