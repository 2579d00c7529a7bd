-- ===== src/Base.antt =====
-- The names that every module shares: the libraries', passed on, and the children's.
mod Tests
mod Lists
mod Slices
mod Fault
mod Arrays
mod Maps
mod Members
mod Words
mod Decimal
mod Text
pub mod Dict
pub use Tests.*
pub use Lists.*
pub use Slices.*
pub use Fault.*
pub use Arrays.*
pub use Maps.*
pub use Members.*
pub use Words.*
unfoldable pub use Decimal.*
pub use Text.*
pub use Prim.Native.Nat.{ℕ, zero, suc, ◌+◌, ◌-◌, ◌*◌, ◌/◌, ◌%◌, ◌^◌, ◌≤◌, ◌<◌, min, max}
pub use mathlib.Core.Path.{◌≡◌, refl, sym, ap, ◌∙◌, subst}
pub use mathlib.Core.Logic.{◌≢◌, ◌↔◌, ◌⊎◌, inl, inr}
pub use mathlib.Core.Bool.{Bool, true, false, not, ◌&&◌, ◌||◌}
pub use mathlib.Core.Option.{Option, none, some}
pub use mathlib.Core.List.{List, [], ◌∷◌, ◌++◌, map, map-append, append_assoc, append-nil}
pub use native.Mathlib.Omega.{arith}
