-- ===== src/Common.antt =====
-- The names that the other modules share: the libraries', passed on, and those of the children.
mod Tests
mod Lists
mod Texts
mod Decimal
mod Runs
mod Fallible
pub use Tests.*
pub use Lists.*
pub use Runs.*
pub use Fallible.*
unfoldable pub use Texts.{
  text, text_eq, text_includes, is_empty, starts_with_text, to_upper, to_lower, trim,
}
pub use Texts.{
  Text, codes, text_rules, text_eq_iff, text_eq_refl, text_eq_cases, is_digit, is_word, is_space,
  upper_char, lower_char,
}
unfoldable pub use Decimal.{show_nat, show_integer, digits_value, span, parse_int}
pub use Decimal.{
  Integer, nan, pos, neg, AllDigits, digits_value-show_nat, show_nat-ne-nil, All_digits-show_nat,
  span-All, parse_int-show_nat, parse_int-show_negative,
}
pub use Prim.Native.Nat.{ℕ, zero, suc, ◌+◌, ◌-◌, ◌*◌, ◌/◌, ◌%◌, ◌^◌, ◌≤◌, ◌<◌}
pub use Prim.Native.String.{String}
pub use mathlib.Core.Path.{◌≡◌, refl, sym, ap, ◌∙◌}
pub use mathlib.Core.Logic.{◌≢◌, ◌↔◌, ◌⊎◌, inl, inr}
pub use mathlib.Core.Bool.{Bool, true, false, not, ◌&&◌, ◌||◌}
pub use mathlib.Core.Option.{Option, none, some}
pub use mathlib.Core.List.{List, [], ◌∷◌, ◌++◌, map}
pub use native.Mathlib.Omega.{arith}
