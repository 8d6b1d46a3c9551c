-- ===== src/Prelude/Int.antt =====
-- Go's `int`, as the integer that it holds, and its decimal form.
use Prim.Native.Nat.{ℕ, suc}
use mathlib.Core.Bool.{Bool, true, false}
use mathlib.Core.List.{◌∷◌}
use vllm_chill.Prelude.Tests.{◌==◌, ltb}
use vllm_chill.Prelude.Strings.{Bytes, to_decimal}

-- `negsuc n` is -(n + 1).
pub data ℤ : Type 0 where
  pos : ℕ → ℤ
  negsuc : ℕ → ℤ

abbrev pub is_zero : ℤ → Bool
is_zero (pos n) = n == 0
is_zero (negsuc n) = false

-- `a == b` on integers.
abbrev pub same_int : ℤ → ℤ → Bool
same_int (pos m) (pos n) = m == n
same_int (negsuc m) (negsuc n) = m == n
same_int (pos m) (negsuc n) = false
same_int (negsuc m) (pos n) = false

-- `a < b` on integers.
abbrev pub less_int : ℤ → ℤ → Bool
less_int (pos m) (pos n) = ltb m n
less_int (negsuc m) (negsuc n) = ltb n m
less_int (pos m) (negsuc n) = false
less_int (negsuc m) (pos n) = true

-- fmt.Sprintf("%d", n)
unfoldable pub format_int : ℤ → Bytes
unfolding to_decimal
format_int (pos n) = to_decimal n
format_int (negsuc n) = b'-' ∷ to_decimal (suc n)
