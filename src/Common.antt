-- ===== src/Common.antt =====
-- The names that the other modules share: the libraries', passed on, and those of the children.
mod Tests
mod Lists
mod Sql
mod Rows
mod Texts
mod Outcome
mod Stdlib
pub use Tests.*
pub use Lists.*
pub use Sql.*
pub use Rows.*
unfoldable pub use Texts.{eq_text, is_empty}
pub use Texts.*
pub use Outcome.*
pub use Stdlib.*
unfoldable pub use Stdlib.{
  is_space, trim_left, trim_space, nocase, has_prefix, split, trim_right_byte,
}
pub use Prim.Native.Nat.{ℕ, zero, suc, ◌+◌, ◌-◌, ◌*◌, ◌/◌, ◌%◌, ◌^◌, ◌≤◌, ◌<◌, min, max}
pub use mathlib.Core.Path.{◌≡◌, refl, sym, ap, ◌∙◌}
pub use mathlib.Core.Logic.{◌≢◌, ◌↔◌, ◌⊎◌, inl, inr}
pub use mathlib.Core.Bool.{Bool, true, false, not, ◌&&◌, ◌||◌}
pub use mathlib.Core.Option.{Option, none, some}
pub use mathlib.Core.List.{List, [], ◌∷◌, ◌++◌, map, append-nil, append_assoc}
pub use native.Mathlib.Omega.{arith}
