-- ===== src/Lifecycle/Gate.antt =====
-- lsfmgr/lifecycle.py, SubmitGate. A method holds the lock of the gate, so that it is one step. The
-- callbacks of an activity belong to the submission that registers it: an activity is told from
-- another by its identity, and carries the limit of the wait for it.
use pyqt_lsf_job_manager.Base.{
  ℕ, String, Bool, not, ◌&&◌, Option, none, some, List, [], ◌∷◌, ◌++◌, all, any, filter, is_empty,
  if◌then◌else◌,
}
use pyqt_lsf_job_manager.States.{same_text}
use pyqt_lsf_job_manager.Util.Ledger.{Item, Ledger, entries, ledger_add, ledger_remove}

-- None is every job of the job set.
abbrev pub Scope : Type 0
Scope = Option (List String)

pub record Activity : Type 0 where
  pub timeout : ℕ

pub record Gate : Type 0 where
  pub activities : Ledger Activity
  pub barriers : Ledger Scope

pub record Registration : Type 0 where
  pub activity : Option (Item Activity)
  pub refused : List String

abbrev pub member : String → List String → Bool
member k = any (same_text k)

-- `a | b` and `a & b` on sets of keys.
abbrev pub union : List String → List String → List String
union a b = a ++ filter (λ k. not (member k a)) b

abbrev pub inter : List String → List String → List String
inter a b = filter (λ k. member k b) a

-- The loop over the barriers. The branch of the whole job set is its `break`.
unfoldable pub refused_by : List String → List String → List (Item Scope) → List String
refused_by want refused [] = refused
refused_by want refused (b ∷ bs) = elim b.value [
  | none ↦ want
  | some scope ↦ refused_by want (union refused (inter want scope)) bs
]

-- `refused >= want`
abbrev pub covers : List String → List String → Bool
covers refused want = all (λ k. member k refused) want

unfoldable pub register : String → List String → Item Activity → Gate → Registration × Gate
register jobset_id want act g =
    let refused = refused_by want [] (entries jobset_id g.barriers) in
    if not (is_empty want) && covers refused want
    then (record { activity = none; refused = want }, g)
    else (
      record { activity = some act; refused = refused },
      record g { activities = ledger_add g.activities jobset_id act },
    )

unfoldable pub unregister : String → Option (Item Activity) → Gate → Gate
unregister jobset_id none g = g
unregister jobset_id (some act) g = record g {
  activities = ledger_remove g.activities jobset_id act.ident;
}

unfoldable pub barrier_up : String → Item Scope → Gate → List (Item Activity) × Gate
barrier_up jobset_id scope g =
    (entries jobset_id g.activities, record g { barriers = ledger_add g.barriers jobset_id scope })

unfoldable pub barrier_down : String → Item Scope → Gate → Gate
barrier_down jobset_id scope g = record g {
  barriers = ledger_remove g.barriers jobset_id scope.ident;
}
