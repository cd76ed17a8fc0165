-- ===== src/Common.antt =====
-- The names that the other modules share: the libraries', passed on, and those of the children
-- (Boolean tests, lists over the native numbers, integers, text).
mod Tests
mod Lists
mod Int
mod Strings
mod Results
pub mod Std
pub mod Fallible
pub use Tests.*
pub use Lists.*
unfoldable pub use Int.*
pub use Results.*
unfoldable pub use Strings.{Text, text_eq, text_ltb, codes}
pub use Strings.{
  text_eq_iff, text_eq_refl, text_eq-false, text_eq-cases, text_ltb_trichotomy, text_ltb_trans,
  text_ltb_irrefl,
}
pub use Prim.Native.Nat.{ℕ, zero, suc, ◌+◌, ◌-◌, ◌*◌, ◌/◌, ◌%◌, ◌^◌, ◌≤◌, ◌<◌}
pub use Prim.Native.String.{String}
pub use mathlib.Core.Path.{◌≡◌, refl, sym, ap, ◌∙◌}
pub use mathlib.Core.Logic.{◌≢◌, ◌↔◌, ◌⊎◌, inl, inr}
pub use mathlib.Core.Bool.{Bool, true, false, not, ◌&&◌, ◌||◌}
pub use mathlib.Core.Option.{Option, none, some}
pub use mathlib.Core.List.{List, [], ◌∷◌, ◌++◌, map}
pub use native.Mathlib.Omega.{arith}
