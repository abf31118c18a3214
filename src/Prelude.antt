-- ===== src/Prelude.antt =====
-- The names that the other modules share: the libraries', passed on, and those of the children.
mod Tests
mod Lists
mod Text
mod Maps
mod Decimal
mod Trim
pub use Tests.*
pub use Lists.*
unfoldable pub use Text.{same, cut_prefix, has_prefix, trim_prefix}
pub use Text.{
  Bytes, codes, same_refl, same→eq, eq→same, same_iff, same-ne, cut_prefix-append,
  has_prefix-append, trim_prefix-append, cut_prefix_sound, append-cancel,
}
unfoldable pub use Maps.{lookup, insert, erase}
pub use Maps.{lookup-insert, lookup-erase, lookup-insert_self}
unfoldable pub use Decimal.{itoa, digits, atoi_digits}
unfoldable pub use Trim.{is_space, trim_left, trim_right, trim_space}
pub use Trim.{IsTrim, trim_space-IsTrim, trim_space_sound}
pub use Decimal.{atoi_digits-itoa, itoa-ne-nil}
pub use Prim.Native.Nat.{ℕ, zero, suc, ◌+◌, ◌-◌, ◌*◌, ◌/◌, ◌%◌, ◌^◌, ◌≤◌, ◌<◌}
pub use Prim.Native.String.{String}
pub use mathlib.Core.Path.{◌≡◌, refl, sym, ap, ap₂, subst, ◌∙◌, fun_ext}
pub use mathlib.Core.Logic.{◌≢◌, ◌↔◌, ◌⊎◌, inl, inr}
pub use mathlib.Core.Bool.{Bool, true, false, not, ◌&&◌, ◌||◌}
pub use mathlib.Core.Option.{Option, none, some}
pub use mathlib.Core.List.{List, [], ◌∷◌, ◌++◌, map, append-nil, append_assoc}
pub use native.Mathlib.Omega.{arith}
