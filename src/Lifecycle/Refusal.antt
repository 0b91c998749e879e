-- ===== src/Lifecycle/Refusal.antt =====
-- What the registration of a submission refuses (lsfmgr/lifecycle.py, SubmitGate.register).
use pyqt_lsf_job_manager.Base.{
  String, ◌≡◌, ◌⊎◌, ◌∙◌, sym, refl, true_ne_false, Bool, true, false, not, ◌&&◌, ◌||◌, none, some,
  List, [], ◌∷◌, ◌++◌, any, filter, is_empty, ite, String_discrete, arith, Bool-cases, Option-cases,
  inl, inr,
}
use pyqt_lsf_job_manager.States.Laws.{same_text_iff, same_text_refl}
use pyqt_lsf_job_manager.Util.Ledger.{Item, entries, entries-ledger_add}
use pyqt_lsf_job_manager.Lifecycle.Gate.{
  Scope, Activity, Gate, member, union, inter, refused_by, covers, register,
}

pub member-append :
    (k : String) (a b : List String) → member k (a ++ b) ≡ (member k a || member k b)
member-append k [] b = refl
member-append k (x ∷ a) b = ground (arith, member-append k a b)

pub member-filter :
    (k : String) (p : String → Bool) (b : List String) → member k (filter p b) ≡ (member k b && p k)
member-filter k p [] = refl
member-filter k p (x ∷ b) = ground (arith, member-filter k p b, (same_text_iff k x).0)

pub member-union :
    (k : String) (a b : List String) → member k (union a b) ≡ (member k a || member k b)
member-union k a b = ground (
  arith,
  member-append k a (filter (λ x. not (member x a)) b),
  member-filter k (λ x. not (member x a)) b,
)

pub member-inter :
    (k : String) (a b : List String) → member k (inter a b) ≡ (member k a && member k b)
member-inter k a b = member-filter k (λ x. member x b) a

-- The scope reaches the job.
abbrev pub reaches : String → Scope → Bool
reaches k none = true
reaches k (some scope) = member k scope

abbrev pub reached : String → List (Item Scope) → Bool
reached k = any (λ b. reaches k b.value)

-- Exactly the wanted keys that a barrier reaches are refused, beside those refused before.
pub member-refused_by :
    (k : String) (want refused : List String) (bs : List (Item Scope))
    → ((x : String) → member x refused ≡ true → member x want ≡ true)
    → member k (refused_by want refused bs) ≡ (member k refused || (member k want && reached k bs))
unfolding refused_by
member-refused_by k want refused [] h = ground arith
member-refused_by k want refused (b ∷ bs) h = elim (Option-cases b.value) [
  | inl e ↦ rw (e, refused_by) (ground (arith, h k))
  | inr (scope, e) ↦
      rw (e, refused_by)
        (ground (
          arith,
          member-refused_by k want (union refused (inter want scope)) bs (λ x m.
              ground
                (arith, member-union x refused (inter want scope), member-inter x want scope, h x)),
          member-union k refused (inter want scope),
          member-inter k want scope,
        ))
]

pub covers-member :
    (want refused : List String) (k : String)
    → covers refused want ≡ true
    → member k want ≡ true
    → member k refused ≡ true
covers-member [] refused k h m = cc
covers-member (x ∷ want) refused k h m =
    ground (arith, covers-member want refused k, (same_text_iff k x).0)

member-covers :
    (want refused : List String)
    → ((k : String) → member k want ≡ true → member k refused ≡ true)
    → covers refused want ≡ true
member-covers [] refused h = refl
member-covers (x ∷ want) refused h =
    ground (arith, h x, same_text_refl x, member-covers want refused (λ k m. h k (ground arith)))

not_covered :
    (want refused : List String)
    → (not (is_empty want) && covers refused want) ≡ false
    → (want ≡ []) ⊎ ¬ ((k : String) → member k want ≡ true → member k refused ≡ true)
not_covered [] refused b = inl refl
not_covered (x ∷ want) refused b =
    inr (λ h. true_ne_false (sym b ∙ member-covers (x ∷ want) refused h))

-- A registration refuses exactly the jobs that a raised barrier of the job set reaches. If that is
-- every job of a submission that has one, nothing is registered; otherwise the submission is, as the
-- last activity of its job set and of no other, and the barriers stay.
pub register_refuses :
    (id : String) (want : List String) (act : Item Activity) (g : Gate)
    → let (reg, g') = register id want act g in
      let raised = entries id g.barriers in
      ((k : String) → member k reg.refused ≡ (member k want && reached k raised))
      × (((reg.activity ≡ none)
            × (g' ≡ g)
            × ((k : String) → member k want ≡ true → member k reg.refused ≡ true))
          ⊎ ((reg.activity ≡ some act)
              × (g'.barriers ≡ g.barriers)
              × ((j : String)
                  → entries j g'.activities
                    ≡ ite
                        (String_discrete id j)
                        (entries id g.activities ++ act ∷ [])
                        (entries j g.activities))
              × ((want ≡ [])
                  ⊎ ¬ ((k : String) → member k want ≡ true → member k reg.refused ≡ true))))
unfolding register
register_refuses id want act g =
    let raised = entries id g.barriers in
    let refused = refused_by want [] raised in
    let exact : (k : String) → member k refused ≡ (member k want && reached k raised) =
      λ k. member-refused_by k want [] raised (λ x m. absurd (true_ne_false m)) in
    elim (Bool-cases (not (is_empty want) && covers refused want)) [
      | inl b ↦
          let every : (k : String) → member k want ≡ true → member k refused ≡ true =
            λ k m. covers-member want refused k (ground arith) m in
          rw b (λ k. ground (arith, exact k, every k), inl (refl, refl, λ k m. m))
      | inr b ↦ rw b (
        exact,
        inr (refl, refl, entries-ledger_add g.activities id act, not_covered want refused b),
      )
    ]
