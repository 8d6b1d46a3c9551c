-- ===== src/Parser/Ids.antt =====
-- generateToolCallID of pkg/parser/xmltool_parser.go, and that different calls get different ids.
use vllm_chill.Prelude.{
  ℕ, ◌+◌, ◌/◌, ◌%◌, Bytes, codes, to_decimal, to_decimal-injective, to_decimal-empty, [], ◌∷◌, ◌++◌,
  ◌==◌, if◌then◌else◌, arith, ◌≡◌,
}

unfoldable pub generate_tool_call_id : ℕ → Bytes
generate_tool_call_id index =
    let letter = b'a' + index % 26 in
    let num = index / 26 in
    if num == 0 then codes "call_" ++ letter ∷ [] else codes "call_" ++ letter ∷ to_decimal num

-- Calls at different positions of one answer have different ids: a letter, and a number for each
-- time that the letters have been used up.
pub generate_tool_call_id-injective :
    (i j : ℕ) → generate_tool_call_id i ≡ generate_tool_call_id j → i ≡ j
unfolding generate_tool_call_id
generate_tool_call_id-injective i j h = ground (
  arith,
  h,
  to_decimal-injective (i / 26) (j / 26),
  to_decimal-empty (i / 26),
  to_decimal-empty (j / 26),
)
