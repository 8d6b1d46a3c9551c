-- ===== src/Parser/Entry.antt =====
-- ParseXMLToolCalls of pkg/parser/xmltool_parser.go, its preprocessing and its choice of the format,
-- and parseXMLToolCalls of pkg/proxy/xmltool_parser.go, which only calls it.
pub mod Numbered
use vllm_chill.Prelude.{
  ℕ, Bytes, codes, trim_prefix, Bool, true, false, ◌||◌, List, [], ◌∷◌, any, if◌then◌else◌,
}
use vllm_chill.Parser.Run.{Run, returns, ◌>>=◌}
use vllm_chill.Parser.Text.{replace_all}
use vllm_chill.Parser.Call.{ToolCall, Packages}
use vllm_chill.Parser.Legacy.{parse_legacy_format}
use vllm_chill.Parser.Standard.{parse_standard_xml_format}

unfoldable pub contains_tool_call_pattern : Packages → Bytes → Bool
contains_tool_call_pattern packages content =
    any (λ pattern. packages.matches pattern content)
      (codes "<[a-zA-Z0-9_-]*:?tool_call"
        ∷ codes "<[a-zA-Z0-9_-]*:?function_call"
        ∷ codes "<function="
        ∷ [])

unfoldable pub protect_non_xml_less_than : Bytes → Bytes
protect_non_xml_less_than content = content

unfoldable pub preprocess_content : Packages → Bytes → Bytes
unfolding trim_prefix replace_all protect_non_xml_less_than
preprocess_content packages content =
    let bare = trim_prefix content (0xEF ∷ 0xBB ∷ 0xBF ∷ []) in
    let unopened = packages.replace_matches (codes "```[a-z]*\n") bare (codes "") in
    let unfenced = replace_all (codes "```") (codes "") unopened in
    protect_non_xml_less_than
      (packages.replace_matches (codes "<!\\[CDATA\\[(.*?)\\]\\]>") unfenced (codes "$1"))

-- the legacy format where the standard one has no call
unfoldable pub legacy_if_empty : Packages → Bytes → List ToolCall → Run (List ToolCall)
unfolding parse_legacy_format
legacy_if_empty packages content [] = parse_legacy_format packages content
legacy_if_empty packages content (c ∷ calls) = returns (c ∷ calls)

unfoldable pub parse_content : Packages → Bytes → Run (List ToolCall)
unfolding contains_tool_call_pattern parse_standard_xml_format legacy_if_empty
parse_content packages content = elim (contains_tool_call_pattern packages content) [
  | false ↦ returns []
  | true ↦ parse_standard_xml_format packages content >>= legacy_if_empty packages content
]

unfoldable pub parse_xml_tool_calls : Packages → Bytes → Run (List ToolCall)
unfolding parse_content preprocess_content
parse_xml_tool_calls packages content = parse_content packages (preprocess_content packages content)
