-- ===== src/Base.antt =====
-- The names that the modules share: the libraries', passed on, and those of the children.
mod Tests
mod Lists
mod Words
mod Loops
mod Bits
mod Options
mod Masks
pub use Tests.*
pub use Lists.*
pub use Words.*
pub use Loops.*
pub use Bits.*
pub use Options.*
pub use Masks.*
pub use Prim.Native.Nat.{◌%◌, ◌+◌, ◌-◌, ◌<◌, ◌≤◌, ◌*◌, ◌/◌, ◌^◌, max, min, suc, zero, ℕ}
pub use mathlib.Core.Path.{◌≡◌, refl, sym, ap, subst, ◌∙◌, fun_ext}
pub use mathlib.Core.Logic.{◌≢◌, ◌↔◌, ◌⊎◌, inl, inr}
pub use mathlib.Core.Bool.{Bool, true, false, not, ◌&&◌, ◌||◌}
pub use mathlib.Core.Option.{Option, none, some}
pub use mathlib.Core.List.{List, [], ◌∷◌, ◌++◌, map}
pub use native.Mathlib.Omega.{arith}
unfoldable pub use native.Mathlib.Decide.{dec_lt, dec_le, ℕ_discrete}
