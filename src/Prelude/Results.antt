-- ===== src/Prelude/Results.antt =====
-- What a Go call comes to: a value, an error, or a panic.
use mathlib.Core.Bool.{Bool, false}
use mathlib.Core.List.{◌++◌}
use vllm_chill.Prelude.Strings.{Bytes, codes}

-- An error by its message, and whether it is the API's answer that the object does not exist.
pub record Error : Type 0 where
  pub not_found : Bool
  pub message : Bytes

-- fmt.Errorf without a wrapped error.
abbrev pub errorf : Bytes → Error
errorf s = record { not_found = false; message = s }

-- fmt.Errorf("prefix: %w", err)
abbrev pub wrap : Bytes → Error → Error
wrap prefix e = record { not_found = e.not_found; message = prefix ++ codes ": " ++ e.message }

pub data Result {ℓ} (A : Type ℓ) : Type ℓ where
  ok : A → Result A
  err : Error → Result A
  panic : Result A
