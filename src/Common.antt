-- ===== src/Common.antt =====
-- The names that the components share: those of the libraries, passed on, and those of the
-- children (Boolean tests, lists over the native numbers, results, texts).
mod Tests
mod Lists
mod Results
mod Texts
mod Stats
pub use Tests.*
pub use Lists.*
pub use Results.*
pub use Texts.*
pub use Stats.*
pub use Prim.Native.Nat.{ℕ, zero, suc, ◌+◌, ◌-◌, ◌*◌, ◌/◌, ◌%◌, ◌^◌, ◌≤◌, ◌<◌, min}
pub use Prim.Native.String.{String}
pub use mathlib.Core.Path.{◌≡◌, refl, sym, ap, ◌∙◌}
pub use mathlib.Core.Logic.{◌≢◌, ◌↔◌, ◌⊎◌, inl, inr}
pub use mathlib.Core.Bool.{Bool, true, false, not, ◌&&◌, ◌||◌}
pub use mathlib.Core.Option.{Option, none, some}
pub use mathlib.Core.List.{List, [], ◌∷◌, ◌++◌, map}
pub use native.Mathlib.Omega.{arith}
