-- ===== src/Prelude.antt =====
-- The names that the other modules share: the libraries', passed on, and those of the
-- children below.
mod Tests
mod Lists
mod Sorts
mod Texts
mod Ints
pub use Tests.*
unfoldable pub use Lists.{find_where, update_where, filter_where, count_where}
pub use Lists.*
unfoldable pub use Sorts.{insert_by, sort_by}
pub use Sorts.*
unfoldable pub use Texts.{is_member, starts_with, decimal, same_text}
pub use Texts.{code_points, lower_code}
unfoldable pub use Ints.{◌-ℤ◌}
pub use Ints.*
pub use Prim.Native.Nat.{ℕ, zero, suc, ◌+◌, ◌-◌, ◌*◌, ◌/◌, ◌%◌, ◌≤◌, ◌<◌}
pub use Prim.Native.String.{String}
pub use mathlib.Core.Path.{◌≡◌, refl, sym, ap, ◌∙◌}
pub use mathlib.Core.Logic.{◌≢◌, ◌↔◌, ◌⊎◌, inl, inr}
pub use mathlib.Core.Bool.{Bool, true, false, not, ◌&&◌, ◌||◌}
pub use mathlib.Core.Option.{Option, none, some}
pub use mathlib.Core.List.{List, [], ◌∷◌, ◌++◌, map, append_assoc, append-nil}
pub use native.Mathlib.Omega.{arith}
pub use text.Mathlib.Text.{◌==◌}
pub use text.Mathlib.TextEquality.{eq_iff}
pub use text.Mathlib.TextPositions.{eq_refl}
