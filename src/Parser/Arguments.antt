-- ===== src/Parser/Arguments.antt =====
-- parseArguments, fixCommonJSONIssues and parseNestedXMLArguments of pkg/parser/xmltool_parser.go.
pub mod Valid
use vllm_chill.Prelude.{
  ℕ, Bytes, codes, same, has_prefix, contains, insert, Assoc, get_or_empty, Bool, true, false, not,
  ◌&&◌, ◌||◌, Option, none, some, List, [], ◌∷◌, foldl, if◌then◌else◌,
}
use vllm_chill.Parser.Text.{trim_space, replace_all}
use vllm_chill.Parser.Call.{Packages, Tag, Value, int, bool, float, text}

unfoldable pub fix_common_json_issues : Packages → Bytes → Bytes
unfolding contains replace_all
fix_common_json_issues packages json =
    let s = packages.replace_matches (codes ",(\\s*[}\\]])") json (codes "$1") in
    if not (contains s (codes "\"")) && contains s (codes "'")
    then replace_all (codes "'") (codes "\"") s
    else s

-- what fmt.Sscanf stored, or the text where it failed
abbrev scanned {ℓ} : {A : Type ℓ} → (A → Value) → Bytes → Option A → Value
scanned f value none = text value
scanned f value (some a) = f a

-- the switch on the type attribute
unfoldable pub typed_value : Packages → Bytes → Bytes → Value
unfolding same
typed_value packages kind value =
    if same kind (codes "int")
    then scanned int value (packages.scan_int value)
    else if same kind (codes "bool")
    then bool (same value (codes "true"))
    else if same kind (codes "float")
    then scanned float value (packages.scan_float value)
    else text value

-- the body of the loop over the tags
unfoldable pub put_tag : Packages → Assoc Value → Tag → Assoc Value
unfolding same insert
put_tag packages result tag =
    if same tag.name (codes "args")
    then result
    else insert tag.name (typed_value packages tag.kind (trim_space tag.content)) result

-- json.Marshal with its error ignored, which leaves no bytes
unfoldable pub marshalled : Packages → Assoc Value → Bytes
marshalled packages [] = codes "{}"
marshalled packages (a ∷ result) = get_or_empty (packages.marshal_values (a ∷ result))

abbrev pub nested_tag : Bytes
nested_tag =
    codes "<([a-zA-Z_][a-zA-Z0-9_-]*)(?:\\s+type=\"([^\"]+)\")?>([^<]*)</[a-zA-Z_][a-zA-Z0-9_-]*>"

unfoldable pub parse_nested_xml_arguments : Packages → Bytes → Bytes
unfolding marshalled
parse_nested_xml_arguments packages xml =
    marshalled packages (foldl (put_tag packages) [] (packages.find_tags nested_tag xml))

-- the branches for arguments that are not JSON
unfoldable pub parse_other_arguments : Packages → Bytes → Bytes
unfolding has_prefix
parse_other_arguments packages s =
    if has_prefix s (codes "<") then parse_nested_xml_arguments packages s else codes "{}"

unfoldable pub parse_trimmed_arguments : Packages → Bytes → Bytes
unfolding has_prefix
parse_trimmed_arguments packages [] = codes "{}"
parse_trimmed_arguments packages (c ∷ s) =
    let content = c ∷ s in
    let looks_like_json = has_prefix content (codes "{") || has_prefix content (codes "[") in
    let fixed = fix_common_json_issues packages content in
    if looks_like_json && packages.is_json content
    then content
    else if looks_like_json && packages.is_json fixed
    then fixed
    else parse_other_arguments packages content

unfoldable pub parse_arguments : Packages → Bytes → Bytes
parse_arguments packages content = parse_trimmed_arguments packages (trim_space content)
