-- ===== src/Tests/Gates.antt =====
-- The properties of the kill priority at concrete inputs.
use pyqt_lsf_job_manager.Base.{
  All, List, String, String_discrete, [], get, ite, none, refl, some, string_key, true,
  true_ne_false, ℕ, ◌&&◌, ◌++◌, ◌∷◌, ◌≡◌, ◌⊎◌,
}
use pyqt_lsf_job_manager.Util.Ledger.{Item, entries}
use pyqt_lsf_job_manager.Lifecycle.Gate.{Activity, Gate, Scope, member, register}
use pyqt_lsf_job_manager.Lifecycle.Scope.{KillScope, begin, cancels}
use pyqt_lsf_job_manager.Lifecycle.Refusal.{reached, register_refuses}
use pyqt_lsf_job_manager.Lifecycle.Priority.{
  GateOp, IsRefused, begin_goes_first, enter, leave, lower_barrier, raise_barrier, registrations,
  standing,
}

abbrev act : ℕ → Item Activity
act n = record { ident = n; value = record { timeout = 5 } }

abbrev open_gate : Gate
open_gate = record { activities = ("s", act 1 ∷ []) ∷ []; barriers = [] }

abbrev kill_b : KillScope
kill_b = record {
  jobset_id = "s";
  keys = record { ident = 7; value = some ("b" ∷ []) };
  acts = none;
}

abbrev other : Item Scope
other = record { ident = 8; value = some ("a" ∷ []) }

abbrev ops : List GateOp
ops =
    enter "s" ("a" ∷ "b" ∷ []) (act 2)
    ∷ raise_barrier "s" other
    ∷ leave "s" (act 1)
    ∷ lower_barrier "s" other
    ∷ enter "s" ("b" ∷ []) (act 3)
    ∷ []

begin_goes_first_example :
    let (calls, k', g') = begin kill_b open_gate in
    (calls ≡ cancels (some ("b" ∷ [])) (entries "s" open_gate.activities))
    × (k'.acts ≡ some (entries "s" open_gate.activities))
    × All (IsRefused "s" kill_b.keys) (registrations ops g')
unfolding standing get String_discrete
begin_goes_first_example = begin_goes_first kill_b ops open_gate refl tt (
  tt,
  (
    0,
    refl,
    (
      λ h. absurd (true_ne_false h),
      (0, refl, (tt, (0, refl, (tt, (0, refl, (tt, (0, refl, tt))))))),
    ),
  ),
)

abbrev raised_gate : Gate
raised_gate = record {
  activities = [];
  barriers = ("s", record { ident = 7; value = some ("b" ∷ []) } ∷ []) ∷ [];
}

register_refuses_example :
    let (reg, g') = register "s" ("a" ∷ "b" ∷ []) (act 2) raised_gate in
    ((k : String)
      → member k reg.refused
        ≡ (member k ("a" ∷ "b" ∷ []) && reached k (entries "s" raised_gate.barriers)))
    × (((reg.activity ≡ none)
          × (g' ≡ raised_gate)
          × ((k : String) → member k ("a" ∷ "b" ∷ []) ≡ true → member k reg.refused ≡ true))
        ⊎ ((reg.activity ≡ some (act 2))
            × (g'.barriers ≡ raised_gate.barriers)
            × ((j : String)
                → entries j g'.activities
                  ≡ ite
                      (String_discrete "s" j)
                      (entries "s" raised_gate.activities ++ act 2 ∷ [])
                      (entries j raised_gate.activities))
            × ((◌≡◌ {A = List String} ("a" ∷ "b" ∷ []) [])
                ⊎ ¬ (
                    (k : String)
                    → member k ("a" ∷ "b" ∷ []) ≡ true
                    → member k reg.refused ≡ true))))
register_refuses_example = register_refuses "s" ("a" ∷ "b" ∷ []) (act 2) raised_gate
