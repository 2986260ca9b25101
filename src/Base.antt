-- ===== src/Base.antt =====
-- Names and small lemmas that all the modules share: Boolean tests, the conditional, lists measured
-- by native numbers, and the libraries' names passed on.
mod Tests
mod Lists
mod Indices
mod Results
mod Maps
mod Ints
pub use Tests.*
pub use Lists.*
pub use Indices.*
pub use Results.*
pub use Maps.*
pub use Ints.*
pub use Prim.Native.Nat.{
  ℕ, zero, suc, ◌+◌, ◌-◌, ◌*◌, ◌/◌, ◌%◌, ◌^◌, ◌≤◌, ◌<◌, min, max, compare, Ordering,
}
pub use mathlib.Core.Path.{◌≡◌, refl, sym, ap, ◌∙◌}
pub use mathlib.Core.Logic.{◌≢◌, ◌↔◌, ◌⊎◌, inl, inr}
pub use mathlib.Core.Bool.{Bool, true, false, ◌&&◌, ◌||◌, not}
pub use mathlib.Core.Option.{Option, none, some}
pub use mathlib.Core.List.{List, [], ◌∷◌, ◌++◌, map, append_assoc, append-nil}
pub use native.Mathlib.Omega.{arith}
