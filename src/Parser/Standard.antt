-- ===== src/Parser/Standard.antt =====
-- parseStandardXMLFormat of pkg/parser/xmltool_parser.go and what it calls.
pub mod Bounds
use vllm_chill.Prelude.{
  ℕ, suc, ◌+◌, Bytes, codes, same, Bool, true, false, Option, none, some, List, [], ◌∷◌, ◌++◌,
  length, any, ◌==◌, if◌then◌else◌,
}
use vllm_chill.Parser.Run.{Run, returns, ◌>>=◌, slice, slice_from}
use vllm_chill.Parser.Text.{trim_space}
use vllm_chill.Parser.Call.{ToolCall, Packages, Match, Span}
use vllm_chill.Parser.Arguments.{parse_arguments}
use vllm_chill.Parser.Extract.{extract_tag_content}
use vllm_chill.Parser.Legacy.{tool_call}

unfoldable pub strip_namespaces : Packages → Bytes → Bytes
strip_namespaces packages content =
    let bare = packages.replace_matches (codes "\\s+xmlns[^=]*=\"[^\"]*\"") content (codes "") in
    packages.replace_matches (codes "<(/?)([a-zA-Z0-9_-]+):") bare (codes "<$1")

abbrev name_attribute : Bytes
name_attribute = codes "<(?:tool_call|function_call)[^>]*\\s+name\\s*=\\s*[\"']([^\"']+)[\"']"

-- a name from the attribute, else from the tag
unfoldable pub tool_name : Packages → Bytes → Bytes → Option Bytes → Bytes
unfolding extract_tag_content same
tool_name packages xml tag_type (some name) = name
tool_name packages xml tag_type none =
    if same tag_type (codes "tool_call")
    then extract_tag_content packages xml (codes "tool_name")
    else extract_tag_content packages xml (codes "name")

-- if argsContent == "" { … }
abbrev if_empty : Bytes → Bytes → Bytes
if_empty [] other = other
if_empty (c ∷ s) other = c ∷ s

unfoldable pub arguments_content : Packages → Bytes → Bytes → Bytes
unfolding extract_tag_content same
arguments_content packages xml tag_type =
    let shared =
      if_empty (extract_tag_content packages xml (codes "arguments"))
        (extract_tag_content packages xml (codes "args")) in
    if same tag_type (codes "tool_call")
    then if_empty (extract_tag_content packages xml (codes "tool_arguments")) shared
    else shared

abbrev named_call : ℕ → Bytes → Bytes → Option ToolCall
named_call call_index [] arguments = none
named_call call_index (c ∷ s) arguments = some (tool_call call_index (trim_space (c ∷ s)) arguments)

unfoldable pub parse_tool_call_xml : Packages → Bytes → Bytes → ℕ → Option ToolCall
unfolding tool_name arguments_content
parse_tool_call_xml packages content tag_type call_index =
    let xml = packages.unescape (strip_namespaces packages content) in
    let name = tool_name packages xml tag_type (packages.find_group name_attribute xml) in
    named_call call_index name (parse_arguments packages (arguments_content packages xml tag_type))

abbrev closing_pattern : Bytes → Bytes
closing_pattern tag =
    codes "(</"
    ++ tag
    ++ codes ">|</[a-zA-Z0-9_-]*:"
    ++ tag
    ++ codes ">|<[a-zA-Z0-9_-]*:/"
    ++ tag
    ++ codes ">)"

-- the next call, or the end of the text
unfoldable pub find_next_call : Packages → Bytes → ℕ → Run ℕ
find_next_call packages content start = do
  rest ← slice_from (start + 1) content
  elim (packages.find (codes "<[^:>]*:?(tool_call|function_call)[^>]*>") rest) [
    | some next ↦ returns (start + 1 + next.first)
    | none ↦ returns (length content)
  ]

unfoldable pub closing_tag_end : Packages → Bytes → ℕ → Option Span → Run ℕ
unfolding find_next_call
closing_tag_end packages content start (some closing) = returns (start + closing.last)
closing_tag_end packages content start none = find_next_call packages content start

unfoldable pub find_closing_tag : Packages → Bytes → ℕ → Bytes → Run ℕ
unfolding closing_tag_end
find_closing_tag packages content start tag = do
  rest ← slice_from start content
  closing_tag_end packages content start (packages.find (closing_pattern tag) rest)

-- toolName = …, where the fragment has one
abbrev last_name : Option Bytes → Bytes → Bytes
last_name none name = name
last_name (some s) name = trim_space s

-- what a fragment adds to the arguments, with and without a closing tag
abbrev fragment_arguments : Option Bytes → Option Bytes → Bytes
fragment_arguments (some s) unclosed = trim_space s
fragment_arguments none (some s) = trim_space s
fragment_arguments none none = []

unfoldable pub merge_fragments : Packages → Bytes → Bytes → Bytes → List Match → Run (Bytes × Bytes)
merge_fragments packages content name arguments [] = returns (name, arguments)
merge_fragments packages content name arguments (m ∷ ms) =
    slice m.group.first m.group.last content >>= λ fragment.
    merge_fragments packages content
      (last_name (packages.find_group (codes "<tool_name>([\\s\\S]*?)</tool_name>") fragment) name)
      (arguments
        ++ fragment_arguments
            (packages.find_group (codes "<tool_arguments>([\\s\\S]*?)</tool_arguments>") fragment)
            (packages.find_group (codes "<tool_arguments>([\\s\\S]*?)$") fragment))
      ms

abbrev name_element : Bytes → Bytes
name_element [] = []
name_element (c ∷ s) = codes "<tool_name>" ++ (c ∷ s) ++ codes "</tool_name>"

unfoldable pub merged_call : Bytes × Bytes → Bytes
merged_call (name, arguments) =
    codes "<tool_call>"
    ++ name_element name
    ++ codes "<tool_arguments>"
    ++ arguments
    ++ codes "</tool_arguments>"
    ++ codes "</tool_call>"

abbrev last_end : Match → List Match → ℕ
last_end m [] = m.whole.last
last_end m (n ∷ ms) = last_end n ms

unfoldable pub merge_matches : Packages → Bytes → List Match → Run Bytes
unfolding merge_fragments
merge_matches packages content [] = returns content
merge_matches packages content (m ∷ []) = returns content
merge_matches packages content (m ∷ n ∷ ms) =
    merge_fragments packages content [] [] (m ∷ n ∷ ms) >>= λ merged.
    slice 0 m.whole.first content >>= λ before.
    slice_from (last_end n ms) content >>= λ after. returns (before ++ merged_call merged ++ after)

abbrev pub part_pattern : Bytes
part_pattern = codes "<tool_call[^>]*part=\"[^\"]*\"[^>]*>([\\s\\S]*?)</tool_call>"

unfoldable pub merge_streaming_fragments : Packages → Bytes → Run Bytes
unfolding merge_matches
merge_streaming_fragments packages content =
    merge_matches packages content (packages.find_all part_pattern content)

-- append(toolCalls, *toolCall) and callIndex++, unless the call is nil
abbrev pub add_call : ℕ × List ToolCall → Option ToolCall → ℕ × List ToolCall
add_call (k, calls) none = (k, calls)
add_call (k, calls) (some c) = (suc k, calls ++ c ∷ [])

-- the body of the loop for a match that was not processed before
unfoldable pub parse_match : Packages → Bytes → ℕ × List ToolCall → Match → Run (ℕ × List ToolCall)
unfolding find_closing_tag parse_tool_call_xml
parse_match packages content (k, calls) m = do
  tag ← slice m.group.first m.group.last content
  end ← find_closing_tag packages content m.whole.first tag
  xml ← slice m.whole.first end content
  returns (add_call (k, calls) (parse_tool_call_xml packages xml tag k))

-- the loop, with the positions that are processed
unfoldable pub parse_matches :
    Packages → Bytes → List ℕ → ℕ × List ToolCall → List Match → Run (ℕ × List ToolCall)
unfolding parse_match
parse_matches packages content processed found [] = returns found
parse_matches packages content processed found (m ∷ ms) =
    elim (any (λ i. i == m.whole.first) processed) [
      | true ↦ parse_matches packages content processed found ms
      | false ↦ parse_match packages content found m >>= λ more.
          parse_matches packages content (m.whole.first ∷ processed) more ms
    ]

abbrev pub tag_pattern : Bytes
tag_pattern = codes "<(?:[a-zA-Z0-9_-]+:)?(tool_call|function_call)[^>]*>"

unfoldable pub parse_standard_xml_format : Packages → Bytes → Run (List ToolCall)
unfolding merge_streaming_fragments parse_matches
parse_standard_xml_format packages content =
    merge_streaming_fragments packages content >>= λ merged.
    parse_matches packages merged [] (0, []) (packages.find_all tag_pattern merged) >>= λ found.
    returns found.1
