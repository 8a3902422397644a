-- ===== src/Base.antt =====
-- The names that the other modules share: the libraries', passed on, and those of the children.
-- Nothing here is code of the repository but `is_blank` (Python's `str.strip`) and the reading of an
-- SQL `UPDATE … WHERE … RETURNING` statement in Table.
mod Tests
mod Lists
mod Text
mod Characters
mod Order
mod Table
pub use Tests.*
pub use Lists.*
pub use Text.*
pub use Characters.*
pub use Order.*
unfoldable pub use Order.{insert, order_by}
unfoldable pub use Text.{is_blank, is_blank_sql, is_empty, is_space}
unfoldable pub use Characters.{starts_with, rfind, words, join, lstrip, rstrip, strip}
unfoldable pub use Table.{find, update_where, returning}
pub use Table.*
pub use Prim.Native.Nat.{ℕ, zero, suc, ◌+◌, ◌-◌, ◌*◌, ◌/◌, ◌%◌, ◌≤◌, ◌<◌, min, max}
pub use Prim.Native.String.{String}
pub use mathlib.Core.Path.{◌≡◌, refl, sym, ap, subst, ◌∙◌}
pub use mathlib.Core.Logic.{◌≢◌, ◌↔◌, ◌⊎◌, inl, inr}
pub use mathlib.Core.Bool.{Bool, true, false, ◌&&◌, ◌||◌, not}
pub use mathlib.Core.Option.{Option, none, some}
pub use mathlib.Core.List.{List, [], ◌∷◌, ◌++◌, map}
pub use native.Mathlib.Omega.{arith}
pub use text.Mathlib.TextEquality.{eq_iff}
