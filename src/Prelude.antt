-- ===== src/Prelude.antt =====
-- Names that the modules share: the libraries' and those of its children.
mod Tests
mod Lists
mod Rows
mod Texts
mod Sets
mod Comparisons
mod Sorting
mod Anys
mod Counts
pub mod Int
unfoldable pub use Tests.*
unfoldable pub use Lists.*
unfoldable pub use Rows.*
unfoldable pub use Texts.*
unfoldable pub use Sets.*
unfoldable pub use Comparisons.*
unfoldable pub use Sorting.*
unfoldable pub use Anys.*
unfoldable pub use Counts.*
pub use Int.{ℤ, pos, negsuc}
pub use Prim.Native.Nat.{ℕ, zero, suc, ◌+◌, ◌-◌, ◌*◌, ◌/◌, ◌%◌, ◌^◌, ◌≤◌, ◌<◌}
pub use mathlib.Core.Path.{◌≡◌, refl, sym, ap, ◌∙◌, subst}
pub use mathlib.Core.Logic.{◌≢◌, ◌↔◌, ◌⊎◌, inl, inr}
pub use mathlib.Core.Bool.{Bool, true, false, not, ◌&&◌, ◌||◌}
pub use mathlib.Core.Option.{Option, none, some}
pub use mathlib.Core.List.{List, [], ◌∷◌, ◌++◌, map, Memᴰ}
pub use native.Mathlib.Omega.{arith}
