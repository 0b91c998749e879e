-- ===== src/Base.antt =====
-- What the other modules share: names of the libraries passed on, tests, keys, dictionaries, lists.
pub mod Tests
pub mod Key
pub mod Dicts
pub mod Int
pub mod Lists
pub mod Texts
pub use Tests.*
unfoldable pub use Key.*
unfoldable pub use Dicts.*
unfoldable pub use Lists.*
unfoldable pub use Texts.{is_space, is_blank, words_after, words, both_texts}
pub use Int.{ℤ, pos, negsuc, same_int}
pub use Prim.Native.Nat.{ℕ, zero, suc, ◌+◌, ◌-◌, ◌*◌, ◌/◌, ◌%◌, ◌^◌, ◌≤◌, ◌<◌, min, max}
pub use Prim.Native.String.{String}
pub use mathlib.Core.Path.{◌≡◌, refl, sym, ap, ◌∙◌, subst}
pub use mathlib.Core.Logic.{◌≢◌, ◌↔◌, ◌⊎◌, inl, inr}
pub use mathlib.Core.Bool.{Bool, true, false, not, ◌&&◌, ◌||◌}
pub use mathlib.Core.Option.{Option, none, some}
pub use mathlib.Core.List.{List, [], ◌∷◌, ◌++◌, map}
pub use native.Mathlib.Omega.{arith}
unfoldable pub use mathlib.Core.Logic.{ite}
unfoldable pub use native.Mathlib.Decide.{dec_lt, dec_le, ℕ_discrete}
