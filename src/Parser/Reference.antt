-- ===== src/Parser/Reference.antt =====
-- The legacy parameters read by cutting the text, with no indices: what parseParameters means.
mod Value
mod Tag
pub mod Loop
pub mod RoundTrip
use vllm_chill.Prelude.{
  ℕ, zero, suc, Bytes, codes, trim_prefix, insert, Assoc, Option, none, some, List, [], ◌∷◌, length,
}
use vllm_chill.Parser.Text.{trim_space}
use vllm_chill.Parser.Cut.{cut}
use vllm_chill.Parser.Parameters.{put_parameter}

-- A parameter's name and value, and the text after it.
pub data Reading : Type 0 where
  nothing : Reading
  parameter : Bytes → Bytes → Bytes → Reading

-- A value without a closing tag ends where the next tag starts.
unfoldable pub read_open : Bytes → Bytes → Option (Bytes × Bytes) → Reading
read_open name rest none = parameter name (trim_space rest) []
read_open name rest (some (value, after)) = parameter name (trim_space value) (b'<' ∷ after)

-- The closing tag may lack its last byte.
unfoldable pub read_value : Bytes → Bytes → Option (Bytes × Bytes) → Reading
unfolding cut
read_value name rest none = read_open name rest (cut (codes "<") rest)
read_value name rest (some (value, after)) =
    parameter name (trim_space value) (trim_prefix after (codes ">"))

unfoldable pub read_name : Option (Bytes × Bytes) → Reading
unfolding cut
read_name none = nothing
read_name (some (name, rest)) = read_value (trim_space name) rest (cut (codes "</parameter") rest)

unfoldable pub read_tag : Option (Bytes × Bytes) → Reading
unfolding cut
read_tag none = nothing
read_tag (some (before, tag)) = read_name (cut (codes ">") tag)

unfoldable pub read_parameter : Bytes → Reading
unfolding cut
read_parameter s = read_tag (cut (codes "<parameter=") s)

unfoldable pub read_next : (Bytes → Assoc Bytes → Assoc Bytes) → Assoc Bytes → Reading → Assoc Bytes
read_next again params nothing = params
read_next again params (parameter name value after) = again after (put_parameter name value params)

unfoldable pub read_from : ℕ → Bytes → Assoc Bytes → Assoc Bytes
unfolding read_next
read_from zero s params = params
read_from (suc fuel) s params = read_next (read_from fuel) params (read_parameter s)

-- Each parameter is longer than its opening tag, so the text has fewer of them than bytes.
unfoldable pub read_parameters : Bytes → Assoc Bytes
read_parameters s = read_from (suc (length s)) s []
