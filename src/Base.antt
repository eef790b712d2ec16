-- ===== src/Base.antt =====
-- What the other modules share: the libraries' names, passed on, and those of the children.
-- `Tests` has Boolean tests, `Lists` the list helpers, `Patterns` regular expressions over text, `Json`
-- the values that Python's `json` reads, and `Exceptions` exceptions as values.
mod Tests
mod Lists
mod Patterns
mod Json
mod Names
mod Exceptions
pub use Tests.*
pub use Lists.*
unfoldable pub use Patterns.*
pub use Json.*
pub use Names.*
pub use Exceptions.*
pub use Prim.Native.Nat.{ℕ, zero, suc, ◌+◌, ◌-◌, ◌*◌, ◌/◌, ◌%◌, ◌^◌, ◌≤◌, ◌<◌}
pub use Prim.Native.String.{String}
pub use mathlib.Core.Path.{◌≡◌, refl, sym, ap, ◌∙◌}
pub use mathlib.Core.Logic.{◌≢◌, ◌↔◌, ◌⊎◌, inl, inr}
pub use mathlib.Core.Bool.{Bool, true, false, not, ◌&&◌, ◌||◌}
pub use mathlib.Core.Option.{Option, none, some}
pub use mathlib.Core.List.{List, [], ◌∷◌, ◌++◌, map}
pub use native.Mathlib.Omega.{arith}
pub use text.Mathlib.Text.{◌==◌ as str_eq}
pub use text.Mathlib.TextEquality.{eq_iff}
pub use text.Mathlib.TextPositions.{eq_refl}
