-- ===== src/Prelude.antt =====
-- The names that the other modules share: the libraries', passed on, and those of the children.
mod Tests
mod Lists
mod Text
mod Contains
pub mod TextOrder
pub mod Sort
pub use Tests.*
pub use Prim.Native.Nat.{ℕ, zero, suc, ◌+◌, ◌-◌, ◌*◌, ◌/◌, ◌%◌, ◌^◌, ◌≤◌, ◌<◌, compare, Ordering}
pub use Prim.Native.String.{String}
unfoldable pub use Lists.{length, get_elem?, filter, any, find?}
pub use Lists.{In, In-append_left, In-append_right, All, All-In, All-of_In, All-append, All-map}
pub use Text.{Str, str_eq→≡, str_eq_refl, str_eq_iff, is_empty→≡, is_empty_nil}
unfoldable pub use Text.{text, str_eq, is_empty, str_compare, cut, has_byte, join, contains}
pub use Contains.{contains→In, In→contains, contains-false}
pub use mathlib.Core.Bool.{Bool, true, false, not, ◌&&◌, ◌||◌}
pub use mathlib.Core.List.{List, [], ◌∷◌, ◌++◌}
unfoldable pub use mathlib.Core.List.{map}
pub use mathlib.Core.Logic.{◌≢◌, ◌↔◌, ◌⊎◌, inl, inr}
pub use mathlib.Core.Option.{Option, none, some}
pub use mathlib.Core.Path.{◌≡◌, refl, sym, ap, ◌∙◌, subst}
pub use native.Mathlib.Omega.{arith}
