-- ===== src/Base.antt =====
-- The names that the modules of the development share: the libraries', passed on, and those of
-- the children: Boolean tests, lists measured by native numbers, `int` values.
mod Tests
mod Lists
mod Flags
mod Sums
mod Members
mod Text
pub mod Int
unfoldable pub use Tests.*
unfoldable pub use Flags.*
pub use Lists.*
pub use Sums.*
unfoldable pub use Members.*
pub use Text.*
pub use Prim.Native.Nat.{ℕ, zero, suc, ◌+◌, ◌-◌, ◌*◌, ◌/◌, ◌%◌, ◌^◌, ◌≤◌, ◌<◌}
pub use mathlib.Core.Path.{◌≡◌, refl, sym, ap, ◌∙◌, subst}
pub use mathlib.Core.Logic.{◌≢◌, ◌↔◌, ◌⊎◌, inl, inr}
pub use mathlib.Core.Bool.{Bool, true, false, not, ◌&&◌, ◌||◌}
pub use mathlib.Core.Option.{Option, none, some}
pub use mathlib.Core.List.{List, [], ◌∷◌, ◌++◌, map, append_assoc, append-nil}
pub use native.Mathlib.Omega.{arith}
unfoldable pub use native.Mathlib.Decide.{dec_lt, ℕ_discrete}
