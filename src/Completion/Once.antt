-- ===== src/Completion/Once.antt =====
-- The cycles of the completion tracker: its tokens and its latch (lsfmgr/completion.py).
use pyqt_lsf_job_manager.States.Laws.{same_text_refl}
use pyqt_lsf_job_manager.Base.{
  Bool-cases, Dict, List, Option, String, [], all, arith, false, get, get-pop, get-put,
  if◌then◌else◌, index_key, inl, inr, nat_key, none, pop, refl, some, string_key, true, ℕ, ◌||◌,
  ◌∷◌, ◌≡◌, ◌≢◌,
}
use pyqt_lsf_job_manager.States.{JobRecord}
use pyqt_lsf_job_manager.Completion.{
  PendingArm, Tracker, World, add_text, all_terminal, armed, complete, confirm, discard,
  discard_text, is_latched, maybe_finish, stage,
}

is_latched-discard_text :
    (id : String) (ids : List String) → is_latched id (discard_text id ids) ≡ false
is_latched-discard_text id [] = refl
is_latched-discard_text id (k ∷ ids) = ground (arith, is_latched-discard_text id ids)

get-armed : (id : String) (f : Option ℕ) (m : Dict String ℕ) → get id (armed id f (pop id m)) ≡ f
get-armed id none m = ground (arith, get-pop id m id)
get-armed id (some f) m = ground (arith, get-put id f (pop id m) id)

-- A staged cycle is armed by its own token alone: another token changes nothing, whether it confirms
-- or discards. The own token gives the entry back, arms its post-processing or none, takes the
-- latch off, and leaves no entry, so that no token confirms it again; discarding by it arms nothing.
pub stage-confirm :
    (id : String) (token other again : ℕ) (f poll : Option ℕ) (t : Tracker)
    → token ≢ other
    → let u = stage id token f poll t in
      (confirm id other u ≡ (none, u))
      × (discard id other u ≡ u)
      × ((ent : PendingArm) × (v : Tracker) × (confirm id token u ≡ (some ent, v))
          × (ent.post_process ≡ f)
          × (get id v.post_processes ≡ f)
          × (is_latched id v.finished_latch ≡ false)
          × (confirm id again v ≡ (none, v)))
      × (get id (discard id token u).post_processes ≡ none)
      × (confirm id again (discard id token u) ≡ (none, discard id token u))
unfolding stage confirm discard
stage-confirm id token other again f poll t n =
    let ent : PendingArm = record { token = token; post_process = f; poll_interval_s = poll } in
    let u = stage id token f poll t in
    let found = get-put id ent t.pending_arm id in
    let left = get-pop id u.pending_arm id in
    (
      ground (arith, found),
      ground (arith, found),
      (
        ent,
        record {
          post_processes = armed id f u.post_processes;
          finished_latch = discard_text id u.finished_latch;
          pending_arm = pop id u.pending_arm;
        },
        ground (arith, found),
        refl,
        get-armed id f t.post_processes,
        is_latched-discard_text id t.finished_latch,
        ground (arith, left),
      ),
      ground (arith, found, get-pop id t.post_processes id),
      ground (arith, found, left),
    )

-- The job set is finished and told: nothing is left to tell or to run.
pub record IsTold (id : String) (t : Tracker) : Type 0 where
  pub latched : is_latched id t.finished_latch ≡ true
  pub unarmed : get id t.post_processes ≡ none

-- The manager sees the jobs of the finished cycle, where it sees any.
abbrev pub SeesFinished : World → Type 0
SeesFinished w = (recs : List JobRecord) × (w.records ≡ some recs) × (all_terminal recs ≡ true)

is_latched-add_text : (id : String) (ids : List String) → is_latched id (add_text id ids) ≡ true
is_latched-add_text id ids = ground (arith, same_text_refl id)

complete-IsTold :
    (id : String) (recs : List JobRecord) (w : World) (t : Tracker)
    → IsTold id t
    → (u : Tracker) × (complete id recs w t ≡ ([], u)) × IsTold id u
complete-IsTold id recs w t h =
    let latch =
      if all (λ r. r.killed) recs then add_text id t.finished_latch else t.finished_latch in
    let l : is_latched id latch ≡ true =
      ground (arith, h.latched, is_latched-add_text id t.finished_latch) in
    (
      record t { post_processes = pop id t.post_processes; finished_latch = latch },
      ground (arith, h.unarmed),
      record { latched = l; unarmed = ground (arith, get-pop id t.post_processes id) },
    )

-- Once a job set is told, every further look at its finished jobs tells nothing, runs nothing, and
-- leaves it told.
pub maybe_finish-IsTold :
    (id : String) (w : World) (t : Tracker)
    → IsTold id t
    → SeesFinished w
    → (u : Tracker) × (maybe_finish id w t ≡ ([], u)) × IsTold id u
unfolding maybe_finish
maybe_finish-IsTold id w t h (recs, e, a) = elim (Bool-cases (w.shutdown_done || w.is_active)) [
  | inl b ↦ (t, ground arith, h)
  | inr b ↦ elim (Bool-cases w.blocks_completion) [
    | inl k ↦ (t, ground arith, h)
    | inr k ↦ let (u, p, q) = complete-IsTold id recs w t h in (u, ground arith, q)
  ]
]
