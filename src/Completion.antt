-- ===== src/Completion.antt =====
-- lsfmgr/completion.py, CompletionTracker: when the application is told that a job set is
-- finished, and when its post-processing runs. Callbacks and tokens are told apart by their
-- identity. What a signal sends is an event of the result; the slots that run before `emit`
-- returns are a function on the tracker.
pub mod Once
use pyqt_lsf_job_manager.Base.{
  Bool, Dict, List, Option, String, [], all, any, filter, get, if◌then◌else◌, is_empty, none, not,
  pop, put, some, string_key, ℕ, ◌&&◌, ◌==◌, ◌||◌, ◌∷◌,
}
use pyqt_lsf_job_manager.States.{JobRecord, is_terminal, same_text}
use pyqt_lsf_job_manager.Store.Update.{Summary}

pub record PendingArm : Type 0 where
  pub token : ℕ
  pub post_process : Option ℕ
  pub poll_interval_s : Option ℕ

pub record Tracker : Type 0 where
  pub post_processes : Dict String ℕ
  pub finished_latch : List String
  pub pending_arm : Dict String PendingArm

abbrev pub is_latched : String → List String → Bool
is_latched id = any (same_text id)

-- `set.discard` and `set.add`
abbrev pub discard_text : String → List String → List String
discard_text id = filter (λ k. not (same_text id k))

abbrev pub add_text : String → List String → List String
add_text id ids = if is_latched id ids then ids else id ∷ ids

unfoldable pub stage : String → ℕ → Option ℕ → Option ℕ → Tracker → Tracker
stage id token post_process poll_interval_s t = record t {
  post_processes = pop id t.post_processes;
  pending_arm =
      put id
        (record { token = token; post_process = post_process; poll_interval_s = poll_interval_s })
        t.pending_arm;
}

-- `self._post_process[jobset_id] = ent.post_process`, where there is one.
abbrev pub armed : String → Option ℕ → Dict String ℕ → Dict String ℕ
armed id none m = m
armed id (some f) m = put id f m

-- The entry of the cycle with the token.
abbrev pub own_arm : String → ℕ → Tracker → Option PendingArm
own_arm id token t = elim (get id t.pending_arm) [
  | none ↦ none
  | some ent ↦ if ent.token == token then some ent else none
]

unfoldable pub confirm : String → ℕ → Tracker → Option PendingArm × Tracker
confirm id token t = elim (own_arm id token t) [
  | none ↦ (none, t)
  | some ent ↦ (
    some ent,
    record {
      post_processes = armed id ent.post_process t.post_processes;
      finished_latch = discard_text id t.finished_latch;
      pending_arm = pop id t.pending_arm;
    },
  )
]

unfoldable pub discard : String → ℕ → Tracker → Tracker
discard id token t = elim (own_arm id token t) [
  | none ↦ t
  | some ent ↦ record t { pending_arm = pop id t.pending_arm }
]

abbrev pub all_terminal : List JobRecord → Bool
all_terminal recs = not (is_empty recs) && all (λ r. is_terminal r.state) recs

pub data Event : Type 0 where
  jobset_finished : String → Summary → Event
  post_processing_started : String → Event
  start_post_process : String → ℕ → List JobRecord → Event

-- What `maybe_finish` asks of the manager, in the order of its questions: None for the records and for
-- the summary is the LsfmgrError of a job set that is gone.
pub record World : Type 0 where
  pub shutdown_done : Bool
  pub is_active : Bool
  pub records : Option (List JobRecord)
  pub blocks_completion : Bool
  pub summary_now : Option Summary
  pub on_finished : Tracker → Tracker
  pub shutdown_then : Bool
  pub on_started : Tracker → Tracker
  pub shutdown_at_last : Bool

-- From `if fn is None` on.
abbrev pub start_post : String → Option ℕ → List JobRecord → World → Tracker → List Event × Tracker
start_post id none recs w t = ([], t)
start_post id (some f) recs w t = if w.shutdown_then then ([], t) else (
  post_processing_started id
      ∷ (if w.shutdown_at_last then [] else start_post_process id f recs ∷ []),
  w.on_started t,
)

-- From the test of the latch on.
abbrev pub notify : String → Option ℕ → List JobRecord → World → Tracker → List Event × Tracker
notify id fn recs w t =
    if is_latched id t.finished_latch then start_post id fn recs w t else elim w.summary_now [
      | none ↦ ([], t)
      | some s ↦
          let t' = w.on_finished (record t { finished_latch = add_text id t.finished_latch }) in
          let (events, t'') = start_post id fn recs w t' in (jobset_finished id s ∷ events, t'')
    ]

-- The part after the guards: every job is terminal and no kill is still being attributed.
abbrev pub complete : String → List JobRecord → World → Tracker → List Event × Tracker
complete id recs w t =
    let fn = get id t.post_processes in
    let latch =
      if all (λ r. r.killed) recs then add_text id t.finished_latch else t.finished_latch in
    notify id fn recs w
      (record t { post_processes = pop id t.post_processes; finished_latch = latch })

unfoldable pub maybe_finish : String → World → Tracker → List Event × Tracker
maybe_finish id w t = if w.shutdown_done || w.is_active then ([], t) else elim w.records [
  | none ↦ (
    [],
    record t {
      post_processes = pop id t.post_processes;
      finished_latch = discard_text id t.finished_latch;
    },
  )
  | some recs ↦
      if not (all_terminal recs)
      then ([], record t { finished_latch = discard_text id t.finished_latch })
      else if w.blocks_completion
      then ([], t)
      else complete id recs w t
]

unfoldable pub forget : String → Tracker → Tracker
forget id t = record {
  post_processes = pop id t.post_processes;
  finished_latch = discard_text id t.finished_latch;
  pending_arm = pop id t.pending_arm;
}
