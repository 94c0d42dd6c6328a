-- ===== src/Base.antt =====
-- What the other modules share: the libraries' names, passed on, Boolean tests on the native
-- numbers, and the children's lists, keyed maps, integers, Go outcomes and strings.
mod Tests
mod Lists
pub mod Keyed
pub mod Dict
pub mod Maps
pub mod Int
pub mod Outcome
pub mod Text
pub mod Space
pub use Tests.*
pub use Lists.*
pub use Prim.Native.Nat.{ℕ, zero, suc, ◌+◌, ◌-◌, ◌*◌, ◌/◌, ◌%◌, ◌^◌, ◌≤◌, ◌<◌, min}
pub use mathlib.Core.Path.{◌≡◌, refl, sym, ap, ◌∙◌}
pub use mathlib.Core.Logic.{◌≢◌, ◌↔◌, ◌⊎◌, inl, inr}
pub use mathlib.Core.Bool.{Bool, true, false, not, ◌&&◌, ◌||◌}
pub use mathlib.Core.Option.{Option, none, some}
pub use mathlib.Core.List.{List, [], ◌∷◌, ◌++◌, map}
pub use native.Mathlib.Omega.{arith}
