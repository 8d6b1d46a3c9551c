-- ===== src/Prelude.antt =====
-- The names that the other modules share: the libraries', passed on, and those of the children.
mod Tests
mod Lists
mod Strings
mod Maps
mod Results
mod Int
mod Decimal
mod Atoi
pub use Tests.*
pub use Lists.*
unfoldable pub use Strings.{
  same, has_prefix, trim_prefix, index, contains, split_on, join_with, to_decimal, ends_with_byte,
}
pub use Strings.{Bytes, codes, same_iff, same_refl}
unfoldable pub use Maps.{lookup, insert}
pub use Results.{Error, errorf, wrap, Result, ok, err, panic}
pub use Int.{ℤ, pos, negsuc, is_zero, same_int, less_int}
unfoldable pub use Int.{format_int}
pub use Decimal.{
  to_decimal-injective, to_decimal-empty, value_after, value_after-to_decimal, IsDigit,
  to_decimal-IsDigit,
}
unfoldable pub use Atoi.{atoi, parse_digits}
pub use Atoi.{
  is_digit, IsInt64, atoi-IsInt64, atoi-IsDigit, atoi-digits, atoi-to_decimal, atoi-format_int,
  parse_digits-to_decimal, parse_digits-IsDigit, to_decimal-ne,
}
pub use Maps.{Assoc, lookup-insert, get_or_empty}
pub use Prim.Native.Nat.{ℕ, zero, suc, ◌+◌, ◌-◌, ◌*◌, ◌/◌, ◌%◌, ◌^◌, ◌≤◌, ◌<◌}
pub use Prim.Native.String.{String}
pub use mathlib.Core.Path.{◌≡◌, refl, sym, ap, ◌∙◌, subst}
pub use mathlib.Core.Logic.{◌≢◌, ◌↔◌, ◌⊎◌, inl, inr}
pub use mathlib.Core.Bool.{Bool, true, false, not, ◌&&◌, ◌||◌}
pub use mathlib.Core.Option.{Option, none, some}
pub use mathlib.Core.List.{List, [], ◌∷◌, ◌++◌, map, append-nil, append_assoc, foldl, reverse}
pub use native.Mathlib.Omega.{arith}
