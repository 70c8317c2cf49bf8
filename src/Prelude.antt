-- ===== src/Prelude.antt =====
-- The names that every module shares: the libraries', passed on, with tests on numbers, lists,
-- results, and the standard library's hash map and hash set.
mod Tests
mod Lists
pub mod Sort
mod Outcome
pub mod HashMap
pub mod HashSet
unfoldable pub use Tests.{holds_to}
pub use Tests.*
unfoldable pub use Lists.{elem, select, every}
pub use Lists.*
pub use Outcome.*
pub use Prim.Native.Nat.{
  ℕ, zero, suc, ◌+◌, ◌-◌, ◌*◌, ◌/◌, ◌%◌, ◌^◌, ◌≤◌, ◌<◌, min, compare, Ordering,
}
pub use Prim.Native.String.{String}
pub use mathlib.Core.Path.{◌≡◌, refl, sym, ap, subst, ◌∙◌}
pub use mathlib.Core.Logic.{◌≢◌, ◌↔◌, ◌⊎◌, inl, inr}
pub use mathlib.Core.Bool.{Bool, true, false, not, ◌&&◌, ◌||◌}
pub use mathlib.Core.Option.{Option, none, some}
pub use mathlib.Core.List.{List, [], ◌∷◌, ◌++◌, map, append-nil, append_assoc}
pub use native.Mathlib.Omega.{arith}
