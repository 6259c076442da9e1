-- ===== src/Prelude.antt =====
-- The names that every module shares: the library's, passed on, and those of the children.
mod Tests
mod Lists
mod Text
pub mod Map
pub mod Order
pub mod Sort
pub mod Unique
pub mod Result
pub mod Decimal
pub use Tests.*
pub use Lists.*
pub use Text.{Bytes, codes, slash, dot, hex_digit, drop_prefix, mem_byte}
pub use Text.{eqs_iff, eqs_refl, eqs-false, lts_irrefl, lts_trans, lts-eqs, lts_total}
pub use Text.{has_prefix-append, has_prefix_elim}
unfoldable pub use Text.{
  split, split_from, eqs, lts, has_prefix, has_suffix, trim_suffix, contains_any,
}
pub use Prim.Native.Nat.{ℕ, zero, suc, ◌+◌, ◌-◌, ◌*◌, ◌/◌, ◌%◌, ◌≤◌, ◌<◌}
pub use Prim.Native.String.{String}
pub use mathlib.Core.Path.{◌≡◌, refl, sym, ap, ◌∙◌}
pub use mathlib.Core.Logic.{◌≢◌, ◌↔◌, ◌⊎◌, inl, inr}
pub use mathlib.Core.Bool.{Bool, true, false, not, ◌&&◌, ◌||◌}
pub use mathlib.Core.Option.{Option, none, some}
pub use mathlib.Core.List.{List, [], ◌∷◌, ◌++◌, map, reverse}
pub use native.Mathlib.Omega.{arith}
