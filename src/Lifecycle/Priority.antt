-- ===== src/Lifecycle/Priority.antt =====
-- The gate between the begin and the release of a kill scope (lsfmgr/lifecycle.py), with what
-- other threads do with it.
use pyqt_lsf_job_manager.Base.{
  ℕ, zero, suc, String, ◌+◌, ◌-◌, ◌≡◌, refl, Bool, true, ◌&&◌, Option, none, some, List, [], ◌∷◌,
  ◌++◌, All, if◌then◌else◌, arith, String_discrete, ◌==◌, Bool-cases, subst, ite_ind, ite_ind₂, inl,
  inr, ap,
}
use pyqt_lsf_job_manager.States.{same_text}
use pyqt_lsf_job_manager.Util.Ledger.{
  Item, entries, delete_item, entries-ledger_add, entries-ledger_remove,
}
use pyqt_lsf_job_manager.Lifecycle.Gate.{
  Scope, Activity, Gate, Registration, member, register, unregister, barrier_up, barrier_down,
}
use pyqt_lsf_job_manager.Lifecycle.Scope.{KillScope, begin, cancels}
use pyqt_lsf_job_manager.Lifecycle.Refusal.{reaches, reached, register_refuses}

-- What a thread does with the gate.
pub data GateOp : Type 0 where
  enter : String → List String → Item Activity → GateOp
  leave : String → Item Activity → GateOp
  raise_barrier lower_barrier : String → Item Scope → GateOp

-- A registration, with what it asked for.
pub record Entered : Type 0 where
  pub jobset_id : String
  pub want : List String
  pub result : Registration

unfoldable pub gate_after : GateOp → Gate → Gate
gate_after (enter id want act) g = (register id want act g).1
gate_after (leave id act) g = unregister id (some act) g
gate_after (raise_barrier id sc) g = (barrier_up id sc g).1
gate_after (lower_barrier id sc) g = barrier_down id sc g

abbrev pub entered : GateOp → Gate → List Entered
entered (enter id want act) g =
    record { jobset_id = id; want = want; result = (register id want act g).0 } ∷ []
entered _ g = []

-- The registrations of a sequence of operations, in their order.
unfoldable pub registrations : List GateOp → Gate → List Entered
registrations [] g = []
registrations (op ∷ ops) g = entered op g ++ registrations ops (gate_after op g)

module _ (id : String) (own : Item Scope) where
  -- How many barriers of the identity stand in a list.
  unfoldable pub standing : List (Item Scope) → ℕ
  standing [] = 0
  standing (b ∷ bs) = if b.ident == own.ident then suc (standing bs) else standing bs

  abbrev is_own : String → Item Scope → Bool
  is_own j sc = same_text j id && sc.ident == own.ident

  abbrev others_left : ℕ → Option ℕ
  others_left zero = none
  others_left (suc m) = some m

  -- How many other kills hold a barrier of the same identity after an operation; `none` if one is
  -- lowered that no other kill raised.
  abbrev pub others_after : ℕ → GateOp → Option ℕ
  others_after n (raise_barrier j sc) = some (if is_own j sc then suc n else n)
  others_after n (lower_barrier j sc) = if is_own j sc then others_left n else some n
  others_after n _ = some n

  -- One identity is one object: a barrier raised under it has the scope of `own`.
  abbrev pub IsSameObject : GateOp → Type 0
  IsSameObject (raise_barrier j sc) = is_own j sc ≡ true → sc.value ≡ own.value
  IsSameObject _ = Unit

  -- The other threads lower only barriers that they raised.
  abbrev pub IsFair : ℕ → List GateOp → Type 0
  IsFair n [] = Unit
  IsFair n (op ∷ ops) = IsSameObject op × ((m : ℕ) × (others_after n op ≡ some m) × IsFair m ops)

  -- The barriers of one identity have one scope.
  abbrev pub AllSame : List (Item Scope) → Type 0
  AllSame = All (λ b. b.ident ≡ own.ident → b.value ≡ own.value)

  -- The barrier of the kill stands in a list, beside those of `n` others.
  record StandsIn (n : ℕ) (bs : List (Item Scope)) : Type 0 where
    count : standing bs ≡ suc n
    same : AllSame bs

  abbrev Stands : ℕ → Gate → Type 0
  Stands n g = StandsIn n (entries id g.barriers)

  standing-append : (a b : List (Item Scope)) → standing (a ++ b) ≡ standing a + standing b
  unfolding standing
  standing-append [] b = omega arith
  standing-append (x ∷ a) b = ground (arith, standing-append a b)

  standing-delete_item :
      (i : ℕ) (bs : List (Item Scope))
      → standing (delete_item i bs) ≡ (if i == own.ident then standing bs - 1 else standing bs)
  unfolding standing delete_item
  standing-delete_item i [] = ground arith
  standing-delete_item i (b ∷ bs) = ground (arith, standing-delete_item i bs)

  AllSame-append :
      (a : List (Item Scope)) (x : Item Scope)
      → AllSame a
      → (x.ident ≡ own.ident → x.value ≡ own.value)
      → AllSame (a ++ x ∷ [])
  AllSame-append [] x h p = (p, tt)
  AllSame-append (y ∷ a) x (q, h) p = (q, AllSame-append a x h p)

  AllSame-delete_item : (i : ℕ) (a : List (Item Scope)) → AllSame a → AllSame (delete_item i a)
  unfolding delete_item
  AllSame-delete_item i [] h = tt
  AllSame-delete_item i (y ∷ a) (q, h) = elim (Bool-cases (y.ident == i)) [
    | inl e ↦ rw e h
    | inr e ↦ rw e (q, AllSame-delete_item i a h)
  ]

  -- A standing barrier reaches what the scope of the kill reaches.
  reached-own :
      (n : ℕ) (k : String) (bs : List (Item Scope))
      → standing bs ≡ suc n
      → AllSame bs
      → reaches k own.value ≡ true
      → reached k bs ≡ true
  unfolding standing
  reached-own n k [] e h r = ground arith
  reached-own n k (b ∷ bs) e (q, h) r = elim (Bool-cases (b.ident == own.ident)) [
    | inl s ↦ ground (arith, ap (reaches k) (q (ground arith)))
    | inr s ↦ ground (arith, reached-own n k bs (ground arith) h r)
  ]

  register-barriers :
      (j : String) (want : List String) (act : Item Activity) (g : Gate)
      → (register j want act g).1.barriers ≡ g.barriers
  register-barriers j want act g =
      let (_, c) = register_refuses j want act g in
      elim c [ inl (_, e, _) ↦ ap (λ h. h.barriers) e | inr (_, e, _, _) ↦ e ]

  raised :
      (n m : ℕ) (sc : Item Scope) (bs : List (Item Scope))
      → StandsIn n bs
      → ((sc.ident == own.ident) ≡ true → sc.value ≡ own.value)
      → (if sc.ident == own.ident then suc n else n) ≡ m
      → StandsIn m (bs ++ sc ∷ [])
  unfolding standing
  raised n m sc bs s o e = record {
    count = ground (arith, standing-append bs (sc ∷ []), s.count);
    same = AllSame-append bs sc s.same (λ p. o (ground arith));
  }

  lowered :
      (n m : ℕ) (sc : Item Scope) (bs : List (Item Scope))
      → StandsIn n bs
      → (if sc.ident == own.ident then others_left n else some n) ≡ some m
      → StandsIn m (delete_item sc.ident bs)
  lowered n m sc bs s e = record {
    count = ground (arith, standing-delete_item sc.ident bs, s.count);
    same = AllSame-delete_item sc.ident bs s.same;
  }

  Stands-gate_after :
      (n m : ℕ) (op : GateOp) (g : Gate)
      → Stands n g
      → IsSameObject op
      → others_after n op ≡ some m
      → Stands m (gate_after op g)
  unfolding gate_after unregister barrier_up barrier_down
  Stands-gate_after n m (enter j want act) g s o e =
      rw (register-barriers j want act g) (subst (λ k. Stands k g) (ground arith) s)
  Stands-gate_after n m (leave j act) g s o e = subst (λ k. Stands k g) (ground arith) s
  Stands-gate_after n m (raise_barrier j sc) g s o e = rw (entries-ledger_add g.barriers j sc id) (
      ite_ind₂
        (λ bs b.
          ((b && sc.ident == own.ident) ≡ true → sc.value ≡ own.value)
          → (if b && sc.ident == own.ident then suc n else n) ≡ m
          → StandsIn m bs)
        (String_discrete j id) (λ p o' e'. raised n m sc (entries j g.barriers) (rw p s) o' e')
        (λ _ o' e'. subst (λ k. Stands k g) e' s) o (ground arith))
  Stands-gate_after n m (lower_barrier j sc) g s o e =
      rw (entries-ledger_remove g.barriers j sc.ident id) (
        ite_ind₂
          (λ bs b.
            (if b && sc.ident == own.ident then others_left n else some n) ≡ some m → StandsIn m bs)
          (String_discrete j id) (λ p e'. lowered n m sc (entries j g.barriers) (rw p s) e')
          (λ _ e'. subst (λ k. Stands k g) (ground arith) s) e)

  -- The registration refuses the jobs that the kill reaches.
  abbrev pub IsRefused : Entered → Type 0
  IsRefused e =
      e.jobset_id ≡ id
      → (k : String) → member k e.want ≡ true
      → reaches k own.value ≡ true
      → member k e.result.refused ≡ true

  entered-IsRefused :
      (n : ℕ) (op : GateOp) (g : Gate) (rest : List Entered)
      → Stands n g
      → All IsRefused rest
      → All IsRefused (entered op g ++ rest)
  entered-IsRefused n (enter j want act) g rest s h = (
    λ p k w r. ground (
      arith,
      (register_refuses j want act g).0 k,
      reached-own n k (entries id g.barriers) s.count s.same r,
      ap (λ x. reached k (entries x g.barriers)) p,
    ),
    h,
  )
  entered-IsRefused n (leave j act) g rest s h = h
  entered-IsRefused n (raise_barrier j sc) g rest s h = h
  entered-IsRefused n (lower_barrier j sc) g rest s h = h

  standing-registrations :
      (n : ℕ) (ops : List GateOp) (g : Gate)
      → Stands n g
      → IsFair n ops
      → All IsRefused (registrations ops g)
  unfolding registrations
  standing-registrations n [] g s f = tt
  standing-registrations n (op ∷ ops) g s (o, (m, e, f)) =
      entered-IsRefused n op g (registrations ops (gate_after op g)) s
        (standing-registrations m ops (gate_after op g) (Stands-gate_after n m op g s o e) f)

  Stands-barrier_up :
      (g : Gate)
      → AllSame (entries id g.barriers)
      → Stands (standing (entries id g.barriers)) (barrier_up id own g).1
  unfolding barrier_up standing
  Stands-barrier_up g h = rw (entries-ledger_add g.barriers id own id) (
      ite_ind (StandsIn (standing (entries id g.barriers))) (String_discrete id id)
        (λ _. record {
          count = ground (arith, standing-append (entries id g.barriers) (own ∷ []));
          same = AllSame-append (entries id g.barriers) own h (λ _. refl);
        })
        (λ q. absurd (q refl)))

-- A kill that begins cancels exactly the activities registered at that moment, with its scope, and
-- remembers them. Whatever the threads then do with the gate, as long as they lower only barriers
-- that they raised and the barriers of one identity have one scope: no registration of that job set
-- takes a wanted job that the kill reaches, until the kill lowers its barrier.
pub begin_goes_first :
    (k : KillScope) (ops : List GateOp) (g : Gate)
    → k.acts ≡ none
    → AllSame k.jobset_id k.keys (entries k.jobset_id g.barriers)
    → IsFair k.jobset_id k.keys (standing k.jobset_id k.keys (entries k.jobset_id g.barriers)) ops
    → let (calls, k', g') = begin k g in
      (calls ≡ cancels k.keys.value (entries k.jobset_id g.activities))
      × (k'.acts ≡ some (entries k.jobset_id g.activities))
      × All (IsRefused k.jobset_id k.keys) (registrations ops g')
unfolding begin barrier_up
begin_goes_first k ops g a h f = rw a (
  refl,
  refl,
  standing-registrations k.jobset_id k.keys
      (standing k.jobset_id k.keys (entries k.jobset_id g.barriers)) ops
      (barrier_up k.jobset_id k.keys g).1 (Stands-barrier_up k.jobset_id k.keys g h) f,
)
