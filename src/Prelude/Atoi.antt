-- ===== src/Prelude/Atoi.antt =====
-- strconv.Atoi, for an int of 64 bits.
use Prim.Native.Nat.{ℕ, zero, suc, ◌^◌, ◌<◌}
use mathlib.Core.Path.{◌≡◌, refl, ◌∙◌, ap, sym}
use mathlib.Core.Logic.{◌≢◌, inl, inr}
use mathlib.Core.Bool.{Bool, true, ◌&&◌}
use mathlib.Core.Option.{Option, none, some}
use mathlib.Core.List.{[], ◌∷◌}
use native.Mathlib.Omega.{arith}
use vllm_chill.Prelude.Lists.{All, all}
use vllm_chill.Prelude.Tests.{Bool-cases, ltb, leb, ◌==◌, if◌then◌else◌, lt→ltb}
use vllm_chill.Prelude.Strings.{Bytes, to_decimal}
use vllm_chill.Prelude.Int.{ℤ, pos, negsuc, format_int}
use vllm_chill.Prelude.Decimal.{
  value_after, value_after-to_decimal, IsDigit, to_decimal-IsDigit, to_decimal-empty,
}

abbrev pub is_digit : ℕ → Bool
is_digit c = leb b'0' c && leb c b'9'

abbrev digits_value : Bytes → Option ℕ
digits_value s = if all is_digit s then some (value_after 0 s) else none

-- what stands behind the sign: digits, at least one
unfoldable pub parse_digits : Bytes → Option ℕ
parse_digits [] = none
parse_digits (c ∷ s) = digits_value (c ∷ s)

abbrev as_positive : Option ℕ → Option ℤ
as_positive none = none
as_positive (some n) = if ltb n (2 ^ 63) then some (pos n) else none

abbrev as_negative : Option ℕ → Option ℤ
as_negative none = none
as_negative (some zero) = some (pos 0)
as_negative (some (suc n)) = if ltb n (2 ^ 63) then some (negsuc n) else none

-- strconv.Atoi; `none` is an error.
unfoldable pub atoi : Bytes → Option ℤ
unfolding parse_digits
atoi [] = none
atoi (c ∷ s) =
    if c == b'+'
    then as_positive (parse_digits s)
    else if c == b'-'
    then as_negative (parse_digits s)
    else as_positive (parse_digits (c ∷ s))

all-IsDigit : (s : Bytes) → All IsDigit s → all is_digit s ≡ true
all-IsDigit [] _ = refl
all-IsDigit (c ∷ s) (d, ds) = ground (arith, all-IsDigit s ds)

pub parse_digits-IsDigit :
    (s : Bytes) → All IsDigit s → s ≢ [] → parse_digits s ≡ some (value_after 0 s)
unfolding parse_digits
parse_digits-IsDigit [] _ h = absurd (h refl)
parse_digits-IsDigit (c ∷ s) ds h = ground (arith, all-IsDigit (c ∷ s) ds)

pub to_decimal-ne : (n : ℕ) → to_decimal n ≢ []
unfolding to_decimal
to_decimal-ne n h = zero_digit (ap to_decimal (sym (to_decimal-empty n h)) ∙ h)
  where
    zero_digit : to_decimal 0 ≢ []
    zero_digit e = ground arith

pub parse_digits-to_decimal : (n : ℕ) → parse_digits (to_decimal n) ≡ some n
parse_digits-to_decimal n =
    parse_digits-IsDigit (to_decimal n) (to_decimal-IsDigit n) (to_decimal-ne n)
    ∙ ap (λ v. some v) (value_after-to_decimal n)

pub atoi-IsDigit : (s : Bytes) → All IsDigit s → s ≢ [] → atoi s ≡ as_positive (parse_digits s)
unfolding atoi
atoi-IsDigit [] ds h = absurd (h refl)
atoi-IsDigit (c ∷ s) (d, ds) h = ground arith

-- Integers of 64 bits.
abbrev pub IsInt64 : ℤ → Type 0
IsInt64 (pos n) = n < 2 ^ 63
IsInt64 (negsuc n) = n < 2 ^ 63

pub atoi-to_decimal : (n : ℕ) → n < 2 ^ 63 → atoi (to_decimal n) ≡ some (pos n)
atoi-to_decimal n h =
    atoi-IsDigit (to_decimal n) (to_decimal-IsDigit n) (to_decimal-ne n)
    ∙ ap as_positive (parse_digits-to_decimal n)
    ∙ rw (lt→ltb n (2 ^ 63) h) refl

-- An int is read back from its decimal form.
pub atoi-format_int : (z : ℤ) → IsInt64 z → atoi (format_int z) ≡ some z
unfolding format_int atoi
atoi-format_int (pos n) h = atoi-to_decimal n h
atoi-format_int (negsuc n) h =
    ap as_negative (parse_digits-to_decimal (suc n)) ∙ rw (lt→ltb n (2 ^ 63) h) refl

as_positive-IsInt64 : (o : Option ℕ) (z : ℤ) → as_positive o ≡ some z → IsInt64 z
as_positive-IsInt64 none z e = cc
as_positive-IsInt64 (some n) (pos m) e = ground arith
as_positive-IsInt64 (some n) (negsuc m) e = ground arith

as_negative-IsInt64 : (o : Option ℕ) (z : ℤ) → as_negative o ≡ some z → IsInt64 z
as_negative-IsInt64 none z e = cc
as_negative-IsInt64 (some zero) (pos m) e = ground arith
as_negative-IsInt64 (some zero) (negsuc m) e = ground arith
as_negative-IsInt64 (some (suc n)) (pos m) e = ground arith
as_negative-IsInt64 (some (suc n)) (negsuc m) e = ground arith

-- What Atoi returns fits in 64 bits.
pub atoi-IsInt64 : (s : Bytes) (z : ℤ) → atoi s ≡ some z → IsInt64 z
unfolding atoi
atoi-IsInt64 [] z e = cc
atoi-IsInt64 (c ∷ s) z e = elim (Bool-cases (c == b'+')) [
  | inl plus ↦ as_positive-IsInt64 (parse_digits s) z (ground (arith, plus, e))
  | inr unsigned ↦ elim (Bool-cases (c == b'-')) [
    | inl minus ↦ as_negative-IsInt64 (parse_digits s) z (ground (arith, unsigned, minus, e))
    | inr bare ↦ as_positive-IsInt64 (parse_digits (c ∷ s)) z (ground (arith, unsigned, bare, e))
  ]
]

-- Digits without a sign are an int that is not negative, or too large.
pub atoi-digits :
    (s : Bytes)
    → All IsDigit s
    → s ≢ []
    → atoi s ≡ (if ltb (value_after 0 s) (2 ^ 63) then some (pos (value_after 0 s)) else none)
atoi-digits s ds h = atoi-IsDigit s ds h ∙ ap as_positive (parse_digits-IsDigit s ds h)
