-- ===== src/Base/Dicts.antt =====
-- Python's dict: its entries in insertion order. A write to a key that is there keeps its place.
use Prim.Native.Nat.{ℕ, ◌+◌, ◌≤◌}
use mathlib.Core.Path.{◌≡◌, refl}
use mathlib.Core.Logic.{ite}
use mathlib.Core.Bool.{Bool, true, false}
use mathlib.Core.Option.{Option, none, some}
use mathlib.Core.List.{List, [], ◌∷◌, map}
use native.Mathlib.Omega.{arith}
use pyqt_lsf_job_manager.Base.Key.{Key}

-- To prove something of both branches of a decision.
pub ite_ind {ℓ κ μ} :
    {Q : Type ℓ} {A : Type κ} (P : A → Type μ) (d : Dec Q) {x y : A}
    → (Q → P x)
    → (¬ Q → P y)
    → P (ite d x y)
ite_ind P (yes q) hx hy = hx q
ite_ind P (no n) hx hy = hy n

pub ite_ind₂ {ℓ κ μ} :
    {Q : Type ℓ} {A B : Type κ} (P : A → B → Type μ) (d : Dec Q) {x y : A} {u v : B}
    → (Q → P x u)
    → (¬ Q → P y v)
    → P (ite d x y) (ite d u v)
ite_ind₂ P (yes q) hx hy = hx q
ite_ind₂ P (no n) hx hy = hy n

abbrev pub Dict {ℓ} : Type ℓ → Type ℓ → Type ℓ
Dict K V = List (K × V)

abbrev pub is_some {ℓ} : {A : Type ℓ} → Option A → Bool
is_some none = false
is_some (some _) = true

abbrev pub or_default {ℓ} : {A : Type ℓ} → A → Option A → A
or_default d none = d
or_default d (some a) = a

-- What an entry weighs, if there is one.
abbrev pub weight {ℓ} : {V : Type ℓ} → (V → ℕ) → Option V → ℕ
weight w none = 0
weight w (some v) = w v

module _ {ℓ} {K V : Type ℓ} where
  abbrev pub keys : Dict K V → List K
  keys = map (λ e. e.0)

  abbrev pub values : Dict K V → List V
  values = map (λ e. e.1)

  -- The sum of a weight over the values; with the weight 1 it is `len(d)`.
  unfoldable pub total : (V → ℕ) → Dict K V → ℕ
  total w [] = 0
  total w ((_, v) ∷ m) = w v + total w m

module _ {ℓ} {K V : Type ℓ} ⦃o : Key K⦄ where
  -- `d.get(k)`
  unfoldable pub get : K → Dict K V → Option V
  get k [] = none
  get k ((j, v) ∷ m) = ite (o.dec j k) (some v) (get k m)

  -- `d[k] = v`
  unfoldable pub put : K → V → Dict K V → Dict K V
  put k v [] = (k, v) ∷ []
  put k v ((j, u) ∷ m) = ite (o.dec j k) ((j, v) ∷ m) ((j, u) ∷ put k v m)

  -- `d.pop(k, None)`
  unfoldable pub pop : K → Dict K V → Dict K V
  pop k [] = []
  pop k ((j, v) ∷ m) = let rest = pop k m in ite (o.dec j k) rest ((j, v) ∷ rest)

  -- `k in d`
  abbrev pub has : K → Dict K V → Bool
  has k m = is_some (get k m)

  -- What a dict guarantees: no key twice.
  abbrev pub IsUnique : Dict K V → Type ℓ
  IsUnique [] = Unit
  IsUnique ((k, _) ∷ m) = (get k m ≡ none) × IsUnique m

  pub get-put :
      (k : K) (v : V) (m : Dict K V) (j : K)
      → get j (put k v m) ≡ ite (o.dec k j) (some v) (get j m)
  unfolding get put
  get-put k v [] j = refl
  get-put k v ((i, u) ∷ m) j = ground (arith, get-put k v m j)

  pub get-pop : (k : K) (m : Dict K V) (j : K) → get j (pop k m) ≡ ite (o.dec k j) none (get j m)
  unfolding get pop
  get-pop k [] j = ground arith
  get-pop k ((i, u) ∷ m) j = ground (arith, get-pop k m j)

  pub put-IsUnique : (k : K) (v : V) (m : Dict K V) → IsUnique m → IsUnique (put k v m)
  unfolding get put
  put-IsUnique k v [] h = (refl, tt)
  put-IsUnique k v ((i, u) ∷ m) h =
      ite_ind IsUnique (o.dec i k) (λ _. h)
        (λ n. (rw get-put (ground (arith, h.0)), put-IsUnique k v m h.1))

  pub pop-IsUnique : (k : K) (m : Dict K V) → IsUnique m → IsUnique (pop k m)
  unfolding get pop
  pop-IsUnique k [] h = tt
  pop-IsUnique k ((i, u) ∷ m) h =
      ite_ind IsUnique (o.dec i k) (λ _. pop-IsUnique k m h.1)
        (λ n. (rw (get-pop k m i) (ground (arith, h.0)), pop-IsUnique k m h.1))

  pub total-put :
      (w : V → ℕ) (k : K) (v : V) (m : Dict K V)
      → total w (put k v m) + weight w (get k m) ≡ total w m + w v
  unfolding get put total
  total-put w k v [] = omega arith
  total-put w k v ((i, u) ∷ m) = ground (arith, total-put w k v m)

  pub pop-absent : (k : K) (m : Dict K V) → get k m ≡ none → pop k m ≡ m
  unfolding get pop
  pop-absent k [] h = refl
  pop-absent k ((i, u) ∷ m) h = ground (arith, pop-absent k m)

  pub total-pop :
      (w : V → ℕ) (k : K) (m : Dict K V)
      → IsUnique m
      → total w (pop k m) + weight w (get k m) ≡ total w m
  unfolding get pop total
  total-pop w k [] h = omega arith
  total-pop w k ((i, u) ∷ m) h = ground (arith, pop-absent k m, total-pop w k m h.1)

  pub weight-le-total : (w : V → ℕ) (k : K) (m : Dict K V) → weight w (get k m) ≤ total w m
  unfolding get total
  weight-le-total w k [] = omega arith
  weight-le-total w k ((i, u) ∷ m) = ground (arith, weight-le-total w k m)
