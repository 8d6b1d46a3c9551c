-- ===== src/Parser/Parameters.antt =====
-- parseParameters of pkg/parser/xmltool_parser.go.
use vllm_chill.Prelude.{
  ℕ, zero, suc, ◌+◌, Bytes, codes, index, insert, Assoc, Bool, true, false, Option, none, some, [],
  ◌∷◌, length, ltb, ◌==◌, if◌then◌else◌,
}
use vllm_chill.Parser.Run.{Run, returns, out_of_fuel, ◌>>=◌, slice, slice_from}
use vllm_chill.Parser.Text.{trim_space}

-- What one round of the loop comes to: a break, or a parameter, the index where the next round
-- starts, and whether the loop breaks after this one.
pub data Round : Type 0 where
  stop : Round
  found : Bytes → Bytes → ℕ → Bool → Round

-- i < len(s) && s[i] == b
abbrev pub has_byte_at : ℕ → ℕ → Bytes → Bool
has_byte_at b i [] = false
has_byte_at b zero (c ∷ s) = c == b
has_byte_at b (suc i) (c ∷ s) = has_byte_at b i s

-- The length of the closing tag, which may lack its last byte.
unfoldable pub closing_length : Bytes → ℕ → ℕ
closing_length content next_char = if has_byte_at b'>' next_char content then 12 else 11

-- The end of a value without a closing tag.
unfoldable pub open_end : Bytes → ℕ → Option ℕ → ℕ
open_end content value_start none = length content
open_end content value_start (some next_tag) = value_start + next_tag

unfoldable pub closed_value : Bytes → Bytes → ℕ → ℕ → Run Round
closed_value content name value_start value_end = do
  value ← slice value_start value_end content
  returns
      (found name (trim_space value) (value_end + closing_length content (value_end + 11)) false)

unfoldable pub open_value : Bytes → Bytes → ℕ → ℕ → Run Round
open_value content name value_start value_end = do
  value ← slice value_start value_end content
  returns (found name (trim_space value) value_end (value_end == length content))

-- by the indices of the closing tag and of the next tag
unfoldable pub value_at : Bytes → Bytes → ℕ → Option ℕ → Option ℕ → Run Round
value_at content name value_start (some closing_idx) next_tag =
    closed_value content name value_start (value_start + closing_idx)
value_at content name value_start none next_tag =
    open_value content name value_start (open_end content value_start next_tag)

unfoldable pub parameter_at : Bytes → ℕ → ℕ → Run Round
unfolding index
parameter_at content param_start param_end = do
  name ← slice (param_start + 11) param_end content
  -- what the debugging output shows
  shown ←
      slice (param_end + 1)
        (if ltb (length content) (param_end + 50) then length content else param_end + 50) content
  let value_start = param_end + 1
  rest ← slice_from value_start content
  value_at content (trim_space name) value_start (index rest (codes "</parameter"))
      (index rest (codes "<"))

unfoldable pub after_start : Bytes → ℕ → Option ℕ → Run Round
after_start content param_start none = returns stop
after_start content param_start (some end) = parameter_at content param_start (end + param_start)

unfoldable pub from_start : Bytes → ℕ → Option ℕ → Run Round
unfolding index
from_start content idx none = returns stop
from_start content idx (some start) = do
  tag ← slice_from (start + idx) content
  after_start content (start + idx) (index tag (codes ">"))

-- the body of the loop
unfoldable pub next_parameter : Bytes → ℕ → Run Round
unfolding index
next_parameter content idx = do
  rest ← slice_from idx content
  from_start content idx (index rest (codes "<parameter="))

-- if paramName != "" { params[paramName] = paramValue }
unfoldable pub put_parameter : Bytes → Bytes → Assoc Bytes → Assoc Bytes
unfolding insert
put_parameter [] value params = params
put_parameter (c ∷ name) value params = insert (c ∷ name) value params

-- the end of the body: break, or the next round
unfoldable pub next_round :
    (ℕ → Assoc Bytes → Run (Assoc Bytes)) → Assoc Bytes → Round → Run (Assoc Bytes)
next_round again params stop = returns params
next_round again params (found name value next true) = returns (put_parameter name value params)
next_round again params (found name value next false) = again next (put_parameter name value params)

unfoldable pub parameters_from : ℕ → Bytes → ℕ → Assoc Bytes → Run (Assoc Bytes)
unfolding next_round
parameters_from zero content idx params = out_of_fuel
parameters_from (suc fuel) content idx params =
    next_parameter content idx >>= next_round (parameters_from fuel content) params

unfoldable pub parse_parameters : Bytes → Run (Assoc Bytes)
parse_parameters content = parameters_from (suc (length content)) content 0 []
