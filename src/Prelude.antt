-- ===== src/Prelude.antt =====
-- Names that the whole development shares: the libraries' and those of the children.
mod Tests
mod Lists
mod Results
mod Int
mod Texts
mod Postconditions
mod Searches
mod Sorting
unfoldable pub use Tests.*
unfoldable pub use Lists.*
pub use Results.*
pub use Int.*
unfoldable pub use Texts.*
pub use Postconditions.*
pub use Searches.*
unfoldable pub use Sorting.*
pub use Prim.Native.Nat.{ℕ, zero, suc, ◌+◌, ◌-◌, ◌*◌, ◌/◌, ◌%◌, ◌≤◌, ◌<◌, min, max}
pub use Prim.Native.String.{String}
pub use mathlib.Core.Path.{◌≡◌, refl, sym, ap, subst, ◌∙◌}
pub use mathlib.Core.Logic.{◌≢◌, ◌↔◌, ◌⊎◌, inl, inr}
pub use mathlib.Core.Bool.{Bool, true, false, not, ◌&&◌, ◌||◌}
pub use mathlib.Core.Option.{Option, none, some}
pub use mathlib.Core.List.{List, [], ◌∷◌, ◌++◌, map}
pub use native.Mathlib.Omega.{arith}
