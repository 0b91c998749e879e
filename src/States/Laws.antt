-- ===== src/States/Laws.antt =====
-- The predicates on states and the table of the states of bjobs (lsfmgr/states.py).
use pyqt_lsf_job_manager.Base.{
  ◌≡◌, ◌≢◌, ◌↔◌, ◌⊎◌, true, false, some, refl, ap, List, [], ◌∷◌, get_elem?, get, String,
  string_key, String_discrete, ==_iff, arith,
}
use pyqt_lsf_job_manager.States.{
  JobState, value, is_terminal, is_failed, is_on_lsf, is_inactive, same_state, lsf_stat_map,
  same_text, rank,
}

-- A state is inactive exactly when LSF does not have the job and no submission of it is under way.
pub is_inactive_iff :
    (s : JobState)
    → (is_inactive s ≡ true)
      ↔ ((is_on_lsf s ≡ false) × (s ≢ JobState.submitting) × (s ≢ JobState.retry_wait))
is_inactive_iff s = grind arith

-- What LSF still has is never terminal, and a failure always is.
pub is_on_lsf-not-is_terminal :
    (s : JobState)
    → (is_on_lsf s ≡ true → is_terminal s ≡ false) × (is_failed s ≡ true → is_terminal s ≡ true)
is_on_lsf-not-is_terminal s = grind arith

all_states : List JobState
all_states =
    JobState.created ∷ JobState.submitting ∷ JobState.retry_wait ∷ JobState.submit_failed
    ∷ JobState.cancelled ∷ JobState.lost ∷ JobState.pend ∷ JobState.run ∷ JobState.done
    ∷ JobState.exit ∷ JobState.psusp ∷ JobState.ususp ∷ JobState.ssusp ∷ JobState.unkwn
    ∷ JobState.zombi ∷ []

get_elem?-rank : (s : JobState) → get_elem? all_states (rank s) ≡ some s
unfolding all_states
get_elem?-rank JobState.created = refl
get_elem?-rank _ = refl

rank-injective : (a b : JobState) → rank a ≡ rank b → a ≡ b
rank-injective a b h = cc (get_elem?-rank a, get_elem?-rank b, ap (get_elem? all_states) h)

-- `is` on two states holds exactly when they are one.
pub same_state_iff : (a b : JobState) → (same_state a b ≡ true) ↔ (a ≡ b)
same_state_iff a b = (
  λ h. rank-injective a b ((==_iff (rank a) (rank b)).0 h),
  λ h. (==_iff (rank a) (rank b)).1 (ap rank h),
)

-- The table that reads the output of bjobs knows each state that LSF reports, by its own name.
pub get-lsf_stat_map :
    (s : JobState)
    → (is_on_lsf s ≡ true) ⊎ (s ≡ JobState.done) ⊎ (s ≡ JobState.exit)
    → get (value s) lsf_stat_map ≡ some s
unfolding get value String_discrete
get-lsf_stat_map JobState.pend h = refl
get-lsf_stat_map JobState.created h = absurd (grind arith)
get-lsf_stat_map JobState.submitting h = absurd (grind arith)
get-lsf_stat_map JobState.retry_wait h = absurd (grind arith)
get-lsf_stat_map JobState.submit_failed h = absurd (grind arith)
get-lsf_stat_map JobState.cancelled h = absurd (grind arith)
get-lsf_stat_map JobState.lost h = absurd (grind arith)
get-lsf_stat_map _ h = refl

pub same_text_iff : (a b : String) → (same_text a b ≡ true) ↔ (a ≡ b)
same_text_iff a b = ground arith

pub same_text_refl : (a : String) → same_text a a ≡ true
same_text_refl a = (same_text_iff a a).1 refl
