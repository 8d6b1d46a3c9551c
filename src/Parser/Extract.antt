-- ===== src/Parser/Extract.antt =====
-- extractTagContent of pkg/parser/xmltool_parser.go.
use vllm_chill.Prelude.{
  ℕ, Bytes, codes, index, contains, get_or_empty, Option, none, some, List, [], ◌∷◌, ◌++◌, take,
  drop, if◌then◌else◌,
}
use vllm_chill.Parser.Text.{trim_space, last_index}
use vllm_chill.Parser.Call.{Packages}

abbrev prefixed : Bytes → Bytes
prefixed tag = codes "[a-zA-Z0-9_-]*:" ++ tag

abbrev cdata_pattern : Bytes → Bytes
cdata_pattern tag =
    codes "<" ++ tag ++ codes "[^>]*><!\\[CDATA\\[(.*?)\\]\\]></" ++ tag ++ codes ">"

abbrev pattern_of : Bytes → Bytes
pattern_of tag = codes "<" ++ tag ++ codes "[^>]*>([\\s\\S]*?)</" ++ tag ++ codes ">"

abbrev truncated_pattern : Bytes → Bytes
truncated_pattern tag = codes "<" ++ tag ++ codes "[^>]*>([\\s\\S]*)$"

-- without and with a namespace
abbrev both : (Bytes → Bytes) → Bytes → List Bytes
both pattern tag = pattern tag ∷ pattern (prefixed tag) ∷ []

-- the first text if it is not empty, else what is tried after it
unfoldable pub or_else : Option Bytes → Option Bytes → Option Bytes
or_else none later = later
or_else (some []) later = later
or_else (some (c ∷ s)) later = some (c ∷ s)

abbrev read_group : (Bytes → Bytes) → Option Bytes → Option Bytes
read_group read none = none
read_group read (some s) = some (read s)

-- The first expression that matches with a group that does not read as the empty string. Each has one
-- group, so that the source's test of a second one never holds.
unfoldable pub find_text : Packages → (Bytes → Bytes) → Bytes → List Bytes → Option Bytes
unfolding or_else
find_text packages read xml [] = none
find_text packages read xml (pattern ∷ patterns) =
    or_else (read_group read (packages.find_group pattern xml))
      (find_text packages read xml patterns)

-- content[:idx], where idx is the result of a search that may be -1
abbrev up_to : Option ℕ → Bytes → Bytes
up_to none s = s
up_to (some i) s = take i s

-- cuts off an incomplete tag at the end
abbrev without_open_tag : Option ℕ → Bytes → Bytes
without_open_tag none s = s
without_open_tag (some i) s = if contains (drop i s) (codes ">") then s else take i s

unfoldable pub truncated_content : Packages → Bytes → Bytes
unfolding index last_index contains
truncated_content packages group =
    let content = up_to (index group (codes "<!--")) group in
    packages.unescape (trim_space (without_open_tag (last_index b'<' content) content))

unfoldable pub extract_tag_content : Packages → Bytes → Bytes → Bytes
unfolding find_text or_else
extract_tag_content packages xml tag =
    let cdata = find_text packages (λ s. s) xml (both cdata_pattern tag) in
    let whole =
      find_text packages (λ s. packages.unescape (trim_space s)) xml (both pattern_of tag) in
    let truncated =
      find_text packages (truncated_content packages) xml (both truncated_pattern tag) in
    get_or_empty (or_else cdata (or_else whole truncated))
