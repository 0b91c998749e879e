-- ===== src/Tests/Fetches.antt =====
-- The properties of the callback source at concrete inputs.
use pyqt_lsf_job_manager.Base.{
  List, [], false, is_some, length, none, refl, some, string_key, sum_of, true, ℕ, ◌++◌, ◌+◌, ◌∷◌,
  ◌≡◌, ◌≤◌, ◌⊎◌,
}
use pyqt_lsf_job_manager.Statuses.Source.{Source, reached}
use pyqt_lsf_job_manager.Statuses.Fetching.{
  System, Wake, max_inflight, start_fetch, start_or_takeover, statuses_by_ids,
}
use pyqt_lsf_job_manager.Statuses.Ledger.{read_statuses}
use pyqt_lsf_job_manager.Statuses.Bounds.{fetches-AreFew, fresh_source}
use pyqt_lsf_job_manager.States.{JobState, JobStatus}
use pyqt_lsf_job_manager.Statuses.Fresh.{statuses_by_ids-contract}
use pyqt_lsf_job_manager.Statuses.Steps.{ask, here, next}
use pyqt_lsf_job_manager.Statuses.Books.{of_token, one_if, primaries}

abbrev row : ℕ → JobState → JobStatus
row n state = record {
  job_id = n;
  array_index = none;
  state = state;
  exit_code = none;
  run_time_s = none;
  start_time = none;
  finish_time = none;
  source_cluster = none;
  forward_cluster = none;
}

abbrev early : List JobStatus
early = row 7 JobState.pend ∷ row 8 JobState.run ∷ []

abbrev late : List JobStatus
late = row 7 JobState.run ∷ row 7 JobState.done ∷ []

abbrev tracking : Source
tracking =
    let new = (fresh_source true none 5000000 2000000 0 true).source in
    record new { interest = 7 ∷ [] }

abbrev new : System
new = fresh_source true none 5000000 2000000 0 true

-- The first fetch does not return, and is taken over after the limit of the wait.
abbrev asked : System
asked = (start_or_takeover 1000 50 new).1

abbrev asked_again : System
asked_again = (start_or_takeover 2001000 60 asked).1

two_fetches : length asked_again.fetches ≡ 2
unfolding start_or_takeover start_fetch
two_fetches = refl

fetches-AreFew_example :
    (asked_again.source.inflight ≡ length asked_again.fetches)
    × (length asked_again.fetches ≤ max_inflight)
    × (asked_again.source.primary_unreturned ≡ sum_of primaries asked_again.fetches)
    × (sum_of (of_token asked_again.source.fetch_token) asked_again.fetches
        ≡ one_if asked_again.source.fetching)
fetches-AreFew_example = fetches-AreFew {y = asked_again} true none 5000000 2000000 0 true (
    next {z = asked} {u = asked_again} (next {z = new} {u = asked} here (ask 1000 50 refl))
      (ask 2001000 60 refl))

abbrev wakes : List Wake
wakes =
    record { monotonic = 3000000; notified = false; meanwhile = λ y. y }
    ∷ record { monotonic = 3000001; notified = false; meanwhile = λ y. y }
    ∷ []

statuses_by_ids-contract_example :
    let r = statuses_by_ids (7 ∷ []) true 1000 50 wakes new in
    let s = r.1.source in
    ((found : List JobStatus) (undecided : List ℕ)
      → r.0 ≡ some (found, undecided)
      → ((found ≡ []) × (undecided ≡ 7 ∷ []))
        ⊎ ((undecided ≡ [])
            × (found ≡ read_statuses (7 ∷ []) s.ledger)
            × ((◌≡◌ {A = List ℕ} (7 ∷ []) []) ⊎ (reached s.last_fetch_at 1000 ≡ true))))
    × ((before : List Wake) (w w' : Wake) (rest : List Wake)
        → wakes ≡ before ++ w ∷ w' ∷ rest
        → 1000 + new.source.wait_timeout ≤ w.monotonic
        → is_some r.0 ≡ true)
statuses_by_ids-contract_example = statuses_by_ids-contract (7 ∷ []) 1000 50 wakes new
