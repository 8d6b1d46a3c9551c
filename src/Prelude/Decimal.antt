-- ===== src/Prelude/Decimal.antt =====
-- A number is read back from its decimal digits.
use Prim.Native.Nat.{ℕ, zero, suc, ◌+◌, ◌-◌, ◌*◌, ◌/◌, ◌%◌, ◌<◌, ◌≤◌}
use mathlib.Core.Path.{◌≡◌, ap, ◌∙◌, sym}
use mathlib.Core.Logic.{inl, inr}
use mathlib.Core.List.{[], ◌∷◌}
use native.Mathlib.Omega.{arith}
use vllm_chill.Prelude.Lists.{All}
use vllm_chill.Prelude.Tests.{Bool-cases, ltb, ltb→lt}
use vllm_chill.Prelude.Strings.{Bytes, digits, to_decimal}

-- What the digits of a number add to the value of the digits before them.
abbrev pub value_after : ℕ → Bytes → ℕ
value_after v [] = v
value_after v (c ∷ s) = value_after (10 * v + (c - b'0')) s

value_after-last :
    (n : ℕ) (out : Bytes) → value_after (n / 10) ((b'0' + n % 10) ∷ out) ≡ value_after n out
value_after-last n out = ap (λ v. value_after v out) (omega arith)

value_after-digits :
    (fuel n : ℕ) (out : Bytes) → n < fuel → value_after 0 (digits fuel n out) ≡ value_after n out
unfolding digits
value_after-digits zero n out h = omega arith
value_after-digits (suc fuel) n out h = elim (Bool-cases (ltb n 10)) [
  | inl small ↦ ground (arith, small)
  | inr large ↦ ground (
    arith,
    large,
    value_after-last n out,
    value_after-digits fuel (n / 10) ((b'0' + n % 10) ∷ out),
  )
]

pub value_after-to_decimal : (n : ℕ) → value_after 0 (to_decimal n) ≡ n
unfolding to_decimal
value_after-to_decimal n = value_after-digits (suc n) n [] (omega arith)

pub to_decimal-injective : (m n : ℕ) → to_decimal m ≡ to_decimal n → m ≡ n
to_decimal-injective m n h =
    sym (value_after-to_decimal m) ∙ ap (value_after 0) h ∙ value_after-to_decimal n

-- The digits of a number other than 0 are not empty.
pub to_decimal-empty : (n : ℕ) → to_decimal n ≡ [] → n ≡ 0
to_decimal-empty n h = sym (value_after-to_decimal n) ∙ ap (value_after 0) h

abbrev pub IsDigit : ℕ → Type 0
IsDigit c = (b'0' ≤ c) × (c ≤ b'9')

digits-IsDigit :
    (fuel n : ℕ) (out : Bytes) → n < fuel → All IsDigit out → All IsDigit (digits fuel n out)
unfolding digits
digits-IsDigit zero n out h ds = ds
digits-IsDigit (suc fuel) n out h ds = elim (Bool-cases (ltb n 10)) [
  | inl small ↦ rw small (omega (arith, ltb→lt n 10 small), ds)
  | inr large ↦ rw large (
      digits-IsDigit fuel (n / 10) ((b'0' + n % 10) ∷ out) (ground (arith, large))
        (omega arith, ds))
]

pub to_decimal-IsDigit : (n : ℕ) → All IsDigit (to_decimal n)
unfolding to_decimal
to_decimal-IsDigit n = digits-IsDigit (suc n) n [] (omega arith) tt
