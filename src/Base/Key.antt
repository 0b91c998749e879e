-- ===== src/Base/Key.antt =====
-- Types whose values serve as dictionary keys: equality on them is decided.
use Prim.Native.Nat.{ℕ}
use Prim.Native.String.{String}
use mathlib.Core.Path.{◌≡◌, refl, ap, ◌∙◌}
use mathlib.Core.Bool.{Bool, true, false}
use mathlib.Core.Option.{Option, none, some}
use text.Mathlib.Text.{◌==◌ as str_eq}
use text.Mathlib.TextEquality.{eq_iff}
use native.Mathlib.Decide.{ℕ_discrete}

pub record Key {ℓ} (A : Type ℓ) : Type ℓ where
  pub dec : (a b : A) → Dec (a ≡ b)

pub true_ne_false : ◌≡◌ {A = Bool} false true → ⊥
true_ne_false h = cc

abbrev pub dec_of : {P : Type 0} (b : Bool) → (b ≡ true → P) → (P → b ≡ true) → Dec P
dec_of true f g = yes (f refl)
dec_of false f g = no (λ p. true_ne_false (g p))

unfoldable pub String_discrete : Discrete String
String_discrete a b = dec_of (str_eq a b) (eq_iff a b).0 (eq_iff a b).1

instance abbrev pub string_key : Key String
string_key = record { dec = String_discrete }

instance abbrev pub nat_key : Key ℕ
nat_key = record { dec = ℕ_discrete }

-- A pair of texts as a key.
unfoldable pub pair_discrete : (a b : String × String) → Dec (a ≡ b)
unfolding String_discrete
pair_discrete (a, b) (c, d) = elim (String_discrete a c) [
  | no n ↦ no (λ e. n (ap (λ p. p.0) e))
  | yes p ↦ elim (String_discrete b d) [
    | no n ↦ no (λ e. n (ap (λ q. q.1) e))
    | yes q ↦ yes (ap (λ x. (x, b)) p ∙ ap (λ y. (c, y)) q)
  ]
]

instance abbrev pub pair_key : Key (String × String)
pair_key = record { dec = pair_discrete }

-- None, or a number, as a key.
unfoldable pub index_discrete : (a b : Option ℕ) → Dec (a ≡ b)
index_discrete none none = yes refl
index_discrete none (some n) = no (λ e. none_ne_some e)
  where
    none_ne_some : {n : ℕ} → ◌≡◌ {A = Option ℕ} none (some n) → ⊥
    none_ne_some e = cc
index_discrete (some m) none = no (λ e. some_ne_none e)
  where
    some_ne_none : {n : ℕ} → ◌≡◌ {A = Option ℕ} (some n) none → ⊥
    some_ne_none e = cc
index_discrete (some m) (some n) = elim (ℕ_discrete m n) [
  | yes e ↦ yes (ap some e)
  | no f ↦ no (λ e. f (injected e))
]
  where
    injected : {m n : ℕ} → ◌≡◌ {A = Option ℕ} (some m) (some n) → m ≡ n
    injected e = cc

instance abbrev pub index_key : Key (Option ℕ)
index_key = record { dec = index_discrete }
