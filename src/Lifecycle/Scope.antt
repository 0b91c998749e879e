-- ===== src/Lifecycle/Scope.antt =====
-- lsfmgr/lifecycle.py, KillScope: the interval in which a kill goes before the submissions. The calls
-- of the activities' callbacks are returned as a list, in their order.
use pyqt_lsf_job_manager.Base.{ℕ, String, Bool, true, ◌&&◌, Option, none, some, List, [], ◌∷◌, map}
use pyqt_lsf_job_manager.Util.Ledger.{Item}
use pyqt_lsf_job_manager.Lifecycle.Gate.{Scope, Activity, Gate, barrier_up, barrier_down}

-- `acts` is None until the barrier is up.
pub record KillScope : Type 0 where
  pub jobset_id : String
  pub keys : Item Scope
  pub acts : Option (List (Item Activity))

-- `None` is one object for all the scopes of a whole job set; each set of keys is an object of its own.
abbrev pub identity : ℕ → Scope → ℕ
identity fresh none = 0
identity fresh (some _) = fresh

unfoldable pub kill_scope : String → Scope → ℕ → KillScope
kill_scope jobset_id keys fresh = record {
  jobset_id = jobset_id;
  keys = record { ident = identity fresh keys; value = keys };
  acts = none;
}

-- `a.cancel(self.keys)`
pub record Cancel : Type 0 where
  pub activity : ℕ
  pub scope : Scope

abbrev pub cancels : Scope → List (Item Activity) → List Cancel
cancels scope = map (λ a. record { activity = a.ident; scope = scope })

unfoldable pub begin : KillScope → Gate → List Cancel × KillScope × Gate
begin k g = elim k.acts [
  | some _ ↦ ([], k, g)
  | none ↦
      let (acts, g') = barrier_up k.jobset_id k.keys g in
      (cancels k.keys.value acts, record k { acts = some acts }, g')
]

-- `a.wait(keys, timeout)` tells whether the activity stopped in time.
abbrev pub Wait : Type 0
Wait = Item Activity → Scope → Bool

abbrev pub all_stopped : Wait → Scope → List (Item Activity) → Bool
all_stopped wait scope [] = true
all_stopped wait scope (a ∷ acts) = wait a scope && all_stopped wait scope acts

abbrev pub acts_of : KillScope → List (Item Activity)
acts_of k = elim k.acts [ none ↦ [] | some acts ↦ acts ]

unfoldable pub acquire : Wait → KillScope → Gate → (Bool × List Cancel) × KillScope × Gate
unfolding begin
acquire wait k g =
    let (calls, k', g') = begin k g in
    ((all_stopped wait k'.keys.value (acts_of k'), calls), k', g')

unfoldable pub release : KillScope → Gate → KillScope × Gate
release k g = elim k.acts [
  | none ↦ (k, g)
  | some _ ↦ (record k { acts = none }, barrier_down k.jobset_id k.keys g)
]
