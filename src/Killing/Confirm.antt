-- ===== src/Killing/Confirm.antt =====
-- lsfmgr/killer.py, _kill_confirm and _confirm_by_query: bkill is sent until every target is resolved or
-- the retries are used up. What bkill replies, and what the status source answers, are arguments.
use pyqt_lsf_job_manager.Base.{
  Bool, List, Option, String, [], any, false, filter, if◌then◌else◌, is_empty, is_some, none, not,
  some, string_key, suc, true, zero, ℕ, ◌&&◌, ◌+◌, ◌==◌, ◌||◌, ◌∷◌,
}
use pyqt_lsf_job_manager.States.{JobState, JobStatus, is_on_lsf, same_state}
use pyqt_lsf_job_manager.Lifecycle.Gate.{inter, member, union}
use pyqt_lsf_job_manager.Polling.Cycle.{Answer}
use pyqt_lsf_job_manager.Killing.Targets.{Form, form_of, is_hit, names_elements, parent_of}

-- `bkill_targets_confirm` of the pending targets.
pub record Reply : Type 0 where
  pub resolved : List String
  pub accepted : List String
  pub calls : ℕ
  pub timed_out : List String

abbrev pub minus : List String → List String → List String
minus a b = filter (λ k. not (member k b)) a

-- What the query says of one target: it is over, and this kill ended it.
pub data Outcome : Type 0 where
  open_still ended_itself ended_by_kill : Outcome

abbrev pub judge_hits : List JobStatus → Outcome
judge_hits hits =
    if any (λ st. is_on_lsf st.state) hits
    then open_still
    else if is_empty hits || any (λ st. not (same_state st.state JobState.done)) hits
    then ended_by_kill
    else ended_itself

abbrev pub judge_mine : Form → List JobStatus → Outcome
judge_mine f mine =
    if is_empty mine
    then ended_by_kill
    else if names_elements f && any (λ st. not (is_some st.array_index)) mine
    then open_still
    else judge_hits (filter (is_hit f) mine)

-- One turn of the loop of `_confirm_by_query`.
unfoldable pub judge_target : Answer → String → Outcome
judge_target a t = elim (parent_of (form_of t)) [
  | none ↦ open_still
  | some id ↦
      if any (λ n. n == id) a.failed
      then open_still
      else judge_mine (form_of t) (filter (λ st. st.job_id == id) a.statuses)
]

abbrev pub is_gone : Outcome → Bool
is_gone open_still = false
is_gone _ = true

abbrev pub is_by_kill : Outcome → Bool
is_by_kill ended_by_kill = true
is_by_kill _ = false

abbrev pub has_parent : String → Bool
has_parent t = is_some (parent_of (form_of t))

-- None is a query that raised: nothing is confirmed. The result has the targets that are over, those
-- that this kill ended, and the number of calls.
unfoldable pub confirm_by_query : Option Answer → List String → List String × List String × ℕ
confirm_by_query answer targets =
    if not (any has_parent targets) then ([], [], 0) else elim answer [
      | none ↦ ([], [], 1)
      | some a ↦ (
        filter (λ t. is_gone (judge_target a t)) targets,
        filter (λ t. is_by_kill (judge_target a t)) targets,
        1,
      )
    ]

pub record Progress : Type 0 where
  pub pending : List String
  pub accepted_all : List String
  pub resolved_all : List String
  pub call_count : ℕ
  pub attempt : ℕ

-- The targets whose bkill timed out are looked up.
abbrev pub look_up_unknown : Option Answer → List String → Progress → Progress
look_up_unknown answer [] p = p
look_up_unknown answer (t ∷ ts) p =
    let (gone, by_kill, calls) = confirm_by_query answer (t ∷ ts) in
    record p {
      pending = minus p.pending gone;
      accepted_all = union p.accepted_all by_kill;
      resolved_all = union p.resolved_all gone;
      call_count = p.call_count + calls;
    }

-- One turn of the loop, up to the test that ends it.
unfoldable pub kill_round : Reply → Option Answer → Progress → Progress
kill_round r answer p =
    let p' : Progress = record p {
      pending = minus p.pending r.resolved;
      accepted_all = union p.accepted_all r.accepted;
      resolved_all = union p.resolved_all r.resolved;
      call_count = p.call_count + r.calls;
    } in
    look_up_unknown answer (inter r.timed_out p'.pending) p'

-- `bkill` and `ask` are what comes back in each attempt; the number is that of the retries left.
unfoldable pub kill_rounds :
    (ℕ → List String → Reply) → (ℕ → List String → Option Answer) → ℕ → Progress → Progress
kill_rounds bkill ask zero p = kill_round (bkill p.attempt p.pending) (ask p.attempt p.pending) p
kill_rounds bkill ask (suc retries) p =
    let p' = kill_round (bkill p.attempt p.pending) (ask p.attempt p.pending) p in
    let rest = kill_rounds bkill ask retries (record p' { attempt = p'.attempt + 1 }) in
    if is_empty p'.pending then p' else rest

-- The result: the calls, the targets that stay unconfirmed, the retries, the targets to mark, and
-- those that are resolved.
pub record Confirmed : Type 0 where
  pub calls_made : ℕ
  pub unconfirmed : List String
  pub retries_made : ℕ
  pub marked : List String
  pub resolved_targets : List String

unfoldable pub kill_confirm :
    (ℕ → List String → Reply) → (ℕ → List String → Option Answer) → ℕ → List String → Confirmed
kill_confirm bkill ask max_retry targets =
    let p = kill_rounds bkill ask max_retry (record {
      pending = targets;
      accepted_all = [];
      resolved_all = [];
      call_count = 0;
      attempt = 0;
    }) in
    record {
      calls_made = p.call_count;
      unconfirmed = p.pending;
      retries_made = p.attempt;
      marked = inter p.accepted_all p.resolved_all;
      resolved_targets = p.resolved_all;
    }
