-- ===== src/Prelude.antt =====
-- The names that every module of the library shares: the standard ones, passed on, and
-- the helpers of the child modules (tests, lists, results, tables).
mod Tests
mod Lists
mod Sorting
mod Results
mod Integers
mod Lookups
mod Tables
mod Texts
mod Decimals
mod Pigeonhole
pub use Tests.*
pub use Lists.*
pub use Sorting.*
pub use Integers.*
pub use Lookups.*
pub use Results.*
pub use Pigeonhole.*
unfoldable pub use Decimals.*
unfoldable pub use Texts.*
unfoldable pub use Tables.*
pub use Prim.Native.Nat.{ℕ, zero, suc, ◌+◌, ◌-◌, ◌*◌, ◌/◌, ◌%◌, ◌≤◌, ◌<◌, min, max}
pub use Prim.Native.String.{String}
pub use mathlib.Core.Path.{◌≡◌, refl, sym, ap, ◌∙◌, subst}
pub use mathlib.Core.Logic.{◌≢◌, ◌↔◌, ◌⊎◌, inl, inr}
pub use mathlib.Core.Bool.{Bool, true, false, not, ◌&&◌, ◌||◌, false≢true}
pub use mathlib.Core.Option.{Option, none, some}
pub use mathlib.Core.List.{List, [], ◌∷◌, ◌++◌, map, append-nil, append_assoc}
pub use native.Mathlib.Omega.{arith}
pub use text.Mathlib.Text.{◌==◌}
pub use text.Mathlib.TextEquality.{eq_iff}
pub use text.Mathlib.TextPositions.{eq_refl}
