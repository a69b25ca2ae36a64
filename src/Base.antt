-- ===== src/Base.antt =====
-- The names that all modules share: the library's, passed on, with tests on numbers, lists measured
-- by native numbers, Go's maps, and the outcomes of Go functions.
mod Tests
mod Lists
mod Equality
mod Int
mod Maps
mod Words
mod Outcomes
mod Inversion
pub use Tests.*
pub use Lists.*
pub use Equality.*
pub use Int.*
pub use Words.*
pub use Inversion.*
unfoldable pub use Maps.*
unfoldable pub use Outcomes.*
pub use Prim.Native.Nat.{ℕ, zero, suc, ◌+◌, ◌-◌, ◌*◌, ◌/◌, ◌%◌, ◌^◌, ◌≤◌, ◌<◌}
pub use Prim.Native.String.{String, ◌++◌ as concat}
pub use mathlib.Core.Path.{◌≡◌, refl, sym, ap, subst, ◌∙◌}
pub use mathlib.Core.Logic.{◌≢◌, ◌↔◌, ◌⊎◌, inl, inr}
pub use mathlib.Core.Bool.{Bool, true, false, not, ◌&&◌, ◌||◌}
pub use mathlib.Core.Option.{Option, none, some}
pub use mathlib.Core.List.{List, [], ◌∷◌, ◌++◌, map}
pub use native.Mathlib.Omega.{arith}
