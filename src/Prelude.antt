-- ===== src/Prelude.antt =====
-- The names that the other modules share: the libraries', passed on, and those of the children:
-- Boolean tests and the conditional, lists measured by native numbers, powers and bit masks,
-- C strings as lists of bytes.
mod Tests
mod Ints
mod Lists
pub mod Bits
pub mod Text
pub mod Maybe
pub mod Tokens
pub use Tests.*
pub use Ints.*
pub use Lists.*
pub use Prim.Native.Nat.{ℕ, zero, suc, ◌+◌, ◌-◌, ◌*◌, ◌/◌, ◌%◌, ◌^◌, ◌≤◌, ◌<◌, min, max}
pub use mathlib.Core.Path.{◌≡◌, refl, sym, ap, ◌∙◌, subst}
pub use mathlib.Core.Logic.{◌≢◌, ◌↔◌, ◌⊎◌, inl, inr}
pub use mathlib.Core.Bool.{Bool, true, false, not, ◌&&◌, ◌||◌}
pub use mathlib.Core.Option.{Option, none, some}
pub use mathlib.Core.List.{List, [], ◌∷◌, ◌++◌, map}
pub use native.Mathlib.Omega.{arith}
unfoldable pub use native.Mathlib.Decide.{dec_lt, ℕ_discrete}
