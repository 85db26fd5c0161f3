-- ===== src/Base.antt =====
-- Names that every other module shares: the libraries', passed on, and those of the children,
-- which model what the program takes from Go's language and standard library.
mod Bools
mod Lists
pub mod Int
pub mod Sort
pub mod Text
pub mod Time
unfoldable pub use Bools.*
unfoldable pub use Lists.*
pub use Prim.Native.Nat.{ℕ, zero, suc, ◌+◌, ◌-◌, ◌*◌, ◌/◌, ◌%◌, ◌^◌, ◌≤◌, ◌<◌}
pub use Prim.Native.String.{String}
pub use mathlib.Core.Path.{◌≡◌, refl, sym, ap, ◌∙◌}
pub use mathlib.Core.Logic.{◌≢◌, ◌↔◌, ◌⊎◌, inl, inr}
pub use mathlib.Core.Bool.{Bool, true, false, not, ◌&&◌, ◌||◌}
pub use mathlib.Core.Option.{Option, none, some}
pub use mathlib.Core.List.{List, [], ◌∷◌, ◌++◌}
pub use mathlib.Core.List.{map}
pub use native.Mathlib.Omega.{arith}
