-- ===== src/Prelude.antt =====
-- The names that the other modules share: the libraries', passed on, Boolean tests on native
-- numbers, lists measured by native numbers, and membership.
mod Tests
mod Lists
mod Members
mod Sorting
mod Text
pub use Tests.*
pub use Text.*
pub use Lists.*
unfoldable pub use Lists.{unique}
unfoldable pub use Sorting.{insert_sorted, sort_by}
pub use Sorting.{count-sort_by, IsSorted, sort_by-IsSorted}
pub use Members.*
pub use Prim.Native.Nat.{ℕ, zero, suc, ◌+◌, ◌-◌, ◌*◌, ◌/◌, ◌%◌, ◌≤◌, ◌<◌}
pub use Prim.Native.String.{String}
pub use mathlib.Core.Path.{◌≡◌, refl, sym, ap, subst, ◌∙◌}
pub use mathlib.Core.Logic.{◌≢◌, ◌↔◌, ◌⊎◌, inl, inr}
pub use mathlib.Core.Bool.{Bool, true, false, not, ◌&&◌, ◌||◌}
pub use mathlib.Core.Option.{Option, none, some}
pub use mathlib.Core.List.{List, [], ◌∷◌, ◌++◌, map, flat_map, Memᴰ}
pub use native.Mathlib.Omega.{arith}
