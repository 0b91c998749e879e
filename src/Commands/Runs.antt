-- ===== src/Commands/Runs.antt =====
-- The runs of one query of bjobs and the formats that it gives up (lsfmgr/command.py, _bjobs).
use pyqt_lsf_job_manager.Commands.Queries.{
  Client, Query, Runner, answered, bjobs, failed, fall_back, looks_like_field_error, run_query,
  try_formats,
}
use pyqt_lsf_job_manager.Base.{
  Bool-cases, List, String, arith, inl, inr, string_key, suc, zero, ℕ, ◌+◌, ◌-◌, ◌≡◌, ◌≤◌,
}

-- A call ran bjobs once, and once more for each format that it went down.
abbrev pub Steps : ℕ → Client → Client → Type 0
Steps below c c' =
    (c'.runs + c.fmt_idx ≡ c.runs + 1 + c'.fmt_idx)
    × (c.fmt_idx ≤ c'.fmt_idx)
    × (c'.fmt_idx ≤ c.fmt_idx + below)

pub fall_back-Steps :
    (below : ℕ) (c : Client) (lower : Query × Client) (q : Query)
    → Steps below (record c { fmt_idx = c.fmt_idx + 1; runs = c.runs + 1 }) lower.1
    → Steps (suc below) c (fall_back c lower q).1
fall_back-Steps below c lower (answered out) h = (omega arith, omega arith, omega arith)
fall_back-Steps below c lower (failed e) (a, b, d) = elim (Bool-cases (looks_like_field_error e)) [
  | inl f ↦ rw f (omega (arith, a), omega (arith, b), omega (arith, d))
  | inr f ↦ rw f (omega arith, omega arith, omega arith)
]

pub try_formats-Steps :
    (runner : Runner) (below : ℕ) (selector : List String) (c : Client)
    → Steps below c (try_formats runner below selector c).1
unfolding try_formats
try_formats-Steps runner zero selector c = (omega arith, omega arith, omega arith)
try_formats-Steps runner (suc below) selector c =
    let c' : Client = record c { fmt_idx = c.fmt_idx + 1; runs = c.runs + 1 } in
    fall_back-Steps below c (try_formats runner below selector c')
      (run_query (runner c.runs c.fmt_idx selector)) (try_formats-Steps runner below selector c')

pub bjobs-Steps :
    (runner : Runner) (formats : ℕ) (selector : List String) (c : Client)
    → Steps (formats - 1 - c.fmt_idx) c (bjobs runner formats selector c).1
unfolding bjobs
bjobs-Steps runner formats selector c =
    try_formats-Steps runner (formats - 1 - c.fmt_idx) selector c
