-- ===== src/Util/Emission.antt =====
-- lsfmgr/util.py, EmitThrottler and LogSampler. Times are microseconds, and `now` is the value of
-- time.monotonic(); a ratio is a number of millionths.
use pyqt_lsf_job_manager.Base.{
  ℕ, ◌+◌, ◌*◌, ◌/◌, Bool, true, false, ◌||◌, leb, ◌==◌, if◌then◌else◌, max, Dict, get, put,
  or_default, List, [], ◌∷◌, String, string_key, filter, any, not,
}
use pyqt_lsf_job_manager.States.{same_text}

-- `last_done` is one more than the field of the source, which begins at -1.
pub record Throttler : Type 0 where
  pub min_interval : ℕ
  pub min_step_ratio : ℕ
  pub last_t : ℕ
  pub last_done : ℕ

unfoldable pub throttler : ℕ → ℕ → Throttler
throttler min_interval min_step_ratio = record {
  min_interval = min_interval;
  min_step_ratio = min_step_ratio;
  last_t = 0;
  last_done = 0;
}

unfoldable pub should_emit : Throttler → ℕ → ℕ → ℕ → Bool × Throttler
should_emit s now done total =
    let noted = record s { last_t = now; last_done = done + 1 } in
    let step = max 1 (total * s.min_step_ratio / 1000000) in
    if leb total done
    then (true, noted)
    else if leb (s.last_t + s.min_interval) now || leb (s.last_done + step) (done + 1)
    then (true, noted)
    else (false, s)

-- The kinds of the log lines are the reasons of the failures.
pub record Sampler : Type 0 where
  pub limit : ℕ
  pub seen : Dict String ℕ
  pub folded_pending : List String

unfoldable pub sampler : ℕ → Sampler
sampler limit = record { limit = max 1 limit; seen = []; folded_pending = [] }

unfoldable pub allow : Sampler → String → Bool × Sampler
allow s kind =
    let n = or_default 0 (get kind s.seen) + 1 in
    (
      leb n s.limit,
      record s {
        seen = put kind n s.seen;
        folded_pending =
            if n == (s.limit + 1)
            then kind ∷ filter (λ k. not (same_text k kind)) s.folded_pending
            else s.folded_pending;
      },
    )

unfoldable pub just_folded : Sampler → String → Bool × Sampler
just_folded s kind =
    if any (λ k. same_text k kind) s.folded_pending
    then (true, record s { folded_pending = filter (λ k. not (same_text k kind)) s.folded_pending })
    else (false, s)
