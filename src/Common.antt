-- ===== src/Common.antt =====
-- What the models of the C files share: library names, Boolean tests, C arrays, machine words.
mod Tests
mod Arrays
mod Sums
mod Words
mod Host
mod Table
mod Search
pub mod CString
pub use Tests.*
unfoldable pub use Arrays.*
pub use Sums.*
pub use Words.*
pub use Host.*
pub use Table.*
pub use Search.*
pub use Prim.Native.Nat.{ℕ, zero, suc, ◌+◌, ◌-◌, ◌*◌, ◌/◌, ◌%◌, ◌^◌, ◌≤◌, ◌<◌}
pub use mathlib.Core.Path.{◌≡◌, refl, sym, ap, subst, ◌∙◌}
pub use mathlib.Core.Logic.{◌≢◌, ◌↔◌, ◌⊎◌, inl, inr}
pub use mathlib.Core.Bool.{Bool, true, false, not, ◌&&◌, ◌||◌}
pub use mathlib.Core.Option.{Option, none, some}
pub use mathlib.Core.List.{List, [], ◌∷◌, ◌++◌}
pub use native.Mathlib.Omega.{arith}
