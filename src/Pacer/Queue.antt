-- ===== src/Pacer/Queue.antt =====
-- The order of the changes of state that are shown (lsfmgr/pacer.py, push and _drain).
use pyqt_lsf_job_manager.Base.{
  Bool-cases, Dict, List, Option, Option-cases, String, [], ap, arith, false, get, get-pop, get-put,
  if◌then◌else◌, inl, inr, map, none, or_default, pair_key, put, refl, some, string_key, subst, sym,
  ◌++◌, ◌+◌, ◌<◌, ◌∙◌, ◌∷◌, ◌≡◌, ◌≢◌, ◌≤◌, ◌⊎◌,
}
use pyqt_lsf_job_manager.States.Laws.{same_state_iff}
use pyqt_lsf_job_manager.Pacer.{
  JobKey, Pacer, accept, cons_due, drain_key, due_tolerance, enqueue, has_dwelt, must_stay, requeue,
}
use pyqt_lsf_job_manager.States.{JobRecord, JobState, Time, rank, same_state}

-- What a job is to show: the states that are sent now, then those that wait.
abbrev states : List JobRecord → List JobState
states = map (λ r. r.state)

-- The states without their immediate repetitions, after the one that stands before them.
unfoldable pub changes : JobState → List JobState → List JobState
changes s [] = []
changes s (t ∷ ts) = let rest = changes t ts in if same_state s t then changes s ts else t ∷ rest

-- The records of a job that wait.
abbrev pub waiting : JobKey → Pacer → List JobRecord
waiting key p = or_default [] (get key p.queue)

changes-enqueue :
    (s : JobState) (q : List JobRecord) (rec : JobRecord)
    → changes s (states q ++ rec.state ∷ []) ≡ changes s (states (enqueue q rec))
unfolding changes enqueue
changes-enqueue s [] rec = refl
changes-enqueue s (q ∷ []) rec = elim (Bool-cases (same_state q.state rec.state)) [
  | inl e ↦
      let h : q.state ≡ rec.state = (same_state_iff q.state rec.state).0 e in
      ground (arith, ap (same_state s) h, ap rank h)
  | inr e ↦ ground arith
]
changes-enqueue s (q ∷ r ∷ qs) rec =
    ground (arith, changes-enqueue s (r ∷ qs) rec, changes-enqueue q.state (r ∷ qs) rec)

-- What a pushed record leaves to show.
abbrev pub KeepsChanges : JobKey → JobRecord → JobState → Pacer → Option JobRecord × Pacer → Type 0
KeepsChanges key rec s p (o, p') =
    (changes s (states (waiting key p) ++ rec.state ∷ [])
      ≡ changes s (states (cons_due o []) ++ states (waiting key p')))
    × ((k : JobKey) → k ≢ key → waiting k p' ≡ waiting k p)

queued-KeepsChanges :
    (key : JobKey) (rec : JobRecord) (s : JobState) (p : Pacer) (q : List JobRecord)
    → changes s (states (waiting key p) ++ rec.state ∷ []) ≡ changes s (states q)
    → KeepsChanges key rec s p (none, record p { queue = put key q p.queue })
queued-KeepsChanges key rec s p q h = (
  ground (arith, get-put key q p.queue key),
  λ k n. let n' : key ≢ k = λ e. n (sym e) in ground (arith, get-put key q p.queue k),
)

sent-KeepsChanges :
    (key : JobKey) (rec : JobRecord) (s : JobState) (p : Pacer)
    (shown : Dict JobKey (JobState × Time))
    → get key p.queue ≡ none
    → KeepsChanges key rec s p (some rec, record p { shown = shown })
sent-KeepsChanges key rec s p shown f = (ground arith, λ k n. refl)

-- A record that is pushed for a job which is on show: the changes of state that were to be shown, with
-- the one of the record, are those of the record that is sent at once, if it is, and of the records
-- that then wait. Nothing that waits for another job changes.
pub accept-changes :
    (id : String) (rec : JobRecord) (now since : Time) (s : JobState) (p : Pacer)
    → get (id, rec.job_key) p.shown ≡ some (s, since)
    → KeepsChanges (id, rec.job_key) rec s p (accept id rec now p)
unfolding accept
accept-changes id rec now since s p e =
    let key : JobKey = (id, rec.job_key) in
    let Kept : Option JobRecord × Pacer → Type 0 = KeepsChanges key rec s p in
    elim (Option-cases (get key p.queue)) [
      | inr (q, f) ↦
          let r : accept id rec now p
              ≡ (none, record p { queue = put key (enqueue q rec) p.queue }) =
            ground arith in
          subst Kept (sym r) (
            queued-KeepsChanges key rec s p (enqueue q rec)
              (ground (arith, changes-enqueue s q rec)))
      | inl f ↦ elim (Bool-cases (same_state rec.state s)) [
        | inl a ↦
            let r : accept id rec now p ≡ (some rec, p) = ground arith in
            subst Kept (sym r) (sent-KeepsChanges key rec s p p.shown f)
        | inr a ↦ elim (Bool-cases (has_dwelt now since p.dwell)) [
          | inl b ↦
              let r : accept id rec now p
                  ≡ (some rec, record p { shown = put key (rec.state, now) p.shown }) =
                ground arith in
              subst Kept (sym r)
                (sent-KeepsChanges key rec s p (put key (rec.state, now) p.shown) f)
          | inr b ↦
              let r : accept id rec now p
                  ≡ (none, record p { queue = put key (rec ∷ []) p.queue }) =
                ground arith in
              subst Kept (sym r) (queued-KeepsChanges key rec s p (rec ∷ []) (ground arith))
        ]
      ]
    ]

-- What a drain of a job that is not at the end does.
abbrev pub IsDrained : JobKey → Time → Time → Pacer → Option JobRecord × Pacer → Type 0
IsDrained key now since p (o, p') =
    ((o ≡ none) × (p' ≡ p) × ((waiting key p ≡ []) ⊎ (now + due_tolerance < since + p.dwell)))
    ⊎ ((rec : JobRecord) × (o ≡ some rec)
        × (since + p.dwell ≤ now + due_tolerance)
        × (waiting key p ≡ rec ∷ waiting key p')
        × (get key p'.shown ≡ some (rec.state, now)))

waiting-requeue :
    (key : JobKey) (qs : List JobRecord) (m : Dict JobKey (List JobRecord))
    → or_default [] (get key (requeue key qs m)) ≡ qs
waiting-requeue key [] m = ground (arith, get-pop key m key)
waiting-requeue key (q ∷ qs) m = ground (arith, get-put key (q ∷ qs) m key)

waits :
    (key : JobKey) (now : Time) (p : Pacer) (q : JobRecord) (qs : List JobRecord)
    → waiting key p ≡ q ∷ qs
    → drain_key false now key p ≡ (
        if must_stay false now key p then (none, p) else (
          some q,
          record p { queue = requeue key qs p.queue; shown = put key (q.state, now) p.shown },
        ))
unfolding drain_key
waits key now p q qs f = rw (f, drain_key) refl

nothing_waits :
    (key : JobKey) (now : Time) (p : Pacer)
    → waiting key p ≡ []
    → drain_key false now key p ≡ (none, p)
unfolding drain_key
nothing_waits key now p f = rw (f, drain_key) refl

-- A drain of a job that is on show, not at the end: if no record of the job waits, or the job has not
-- yet been shown for its time, nothing is sent and nothing changes. Otherwise the first record that
-- waited is sent, the others still wait in their order, and the job is shown in the state of the
-- record from now on.
pub drain_key-order :
    (key : JobKey) (now since : Time) (s : JobState) (p : Pacer)
    → get key p.shown ≡ some (s, since)
    → IsDrained key now since p (drain_key false now key p)
drain_key-order key now since s p e = drained (waiting key p) refl
  where
    drained :
        (w : List JobRecord)
        → waiting key p ≡ w
        → IsDrained key now since p (drain_key false now key p)
    drained [] f =
        subst (IsDrained key now since p) (sym (nothing_waits key now p f))
          (inl (refl, refl, inl f))
    drained (q ∷ qs) f = elim (Bool-cases (must_stay false now key p)) [
      | inl b ↦
          subst (IsDrained key now since p) (sym (waits key now p q qs f))
            (rw b (inl (refl, refl, inr (ground arith))))
      | inr b ↦ subst (IsDrained key now since p) (sym (waits key now p q qs f)) (
          rw b (
            inr (
              q,
              refl,
              ground arith,
              f ∙ ap (λ r. q ∷ r) (sym (waiting-requeue key qs p.queue)),
              ground (arith, get-put key (q.state, now) p.shown key),
            )))
    ]
