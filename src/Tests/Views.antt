-- ===== src/Tests/Views.antt =====
-- The properties of what is told and shown at concrete inputs.
use pyqt_lsf_job_manager.Util.Sampling.{let_through, let_through-sampler, occurrences}
use pyqt_lsf_job_manager.Util.Emission.{sampler}
use pyqt_lsf_job_manager.Base.{
  List, String_discrete, [], arith, false, get, max, min, none, refl, some, string_key, ◌∷◌, ◌≡◌,
}
use pyqt_lsf_job_manager.States.{JobRecord, JobState}
use pyqt_lsf_job_manager.Completion.{
  PendingArm, Tracker, World, confirm, discard, is_latched, maybe_finish, stage,
}
use pyqt_lsf_job_manager.Completion.Once.{IsTold, maybe_finish-IsTold, stage-confirm}
use pyqt_lsf_job_manager.Tests.Samples.{job}

abbrev idle : Tracker
idle = record { post_processes = []; finished_latch = []; pending_arm = [] }

abbrev armed_once : Tracker
armed_once = record idle { post_processes = ("s", 4) ∷ [] }

stage-confirm_example :
    let u = stage "s" 1 (some 4) none idle in
    (confirm "s" 2 u ≡ (none, u))
    × (discard "s" 2 u ≡ u)
    × ((ent : PendingArm) × (v : Tracker) × (confirm "s" 1 u ≡ (some ent, v))
        × (ent.post_process ≡ some 4)
        × (get "s" v.post_processes ≡ some 4)
        × (is_latched "s" v.finished_latch ≡ false)
        × (confirm "s" 3 v ≡ (none, v)))
    × (get "s" (discard "s" 1 u).post_processes ≡ none)
    × (confirm "s" 3 (discard "s" 1 u) ≡ (none, discard "s" 1 u))
stage-confirm_example = stage-confirm "s" 1 2 3 (some 4) none idle (λ e. absurd (omega (arith, e)))

abbrev finished : List JobRecord
finished = job "a" JobState.done ∷ job "b" JobState.exit ∷ []

abbrev quiet : World
quiet = record {
  shutdown_done = false;
  is_active = false;
  records = some finished;
  blocks_completion = false;
  summary_now = some (record { intended = 2; by_state = [] });
  on_finished = λ t. t;
  shutdown_then = false;
  on_started = λ t. t;
  shutdown_at_last = false;
}

abbrev told : Tracker
told = record { post_processes = []; finished_latch = "s" ∷ []; pending_arm = [] }

told-IsTold : IsTold "s" told
unfolding get String_discrete
told-IsTold = record { latched = refl; unarmed = refl }

maybe_finish-IsTold_example : (u : Tracker) × (maybe_finish "s" quiet told ≡ ([], u)) × IsTold "s" u
maybe_finish-IsTold_example = maybe_finish-IsTold "s" quiet told told-IsTold (finished, refl, refl)

let_through-sampler_example :
    let_through "NO_QUEUE" ("NO_QUEUE" ∷ "TIMEOUT" ∷ "NO_QUEUE" ∷ "NO_QUEUE" ∷ []) (sampler 2)
    ≡ min (occurrences "NO_QUEUE" ("NO_QUEUE" ∷ "TIMEOUT" ∷ "NO_QUEUE" ∷ "NO_QUEUE" ∷ [])) (max 1 2)
let_through-sampler_example =
    let_through-sampler 2 "NO_QUEUE" ("NO_QUEUE" ∷ "TIMEOUT" ∷ "NO_QUEUE" ∷ "NO_QUEUE" ∷ [])
