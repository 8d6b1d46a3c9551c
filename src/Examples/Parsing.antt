-- ===== src/Examples/Parsing.antt =====
-- The theorems on the tool call parser.
use vllm_chill.Prelude.{
  ℕ, Bytes, codes, same, contains, Assoc, Bool, true, false, ◌&&◌, none, some, List, [], ◌∷◌,
  length, leb, All, if◌then◌else◌, Bool-cases, inl, inr, ◌<◌, arith, ◌≡◌, refl,
}
use vllm_chill.Parser.Run.{returns, Returns}
use vllm_chill.Parser.Text.{trim_space, skip_space, space_at, space_before}
use vllm_chill.Parser.Call.{Packages, Match, Tag, Value}
use vllm_chill.Parser.Legacy.{parse_legacy_format}
use vllm_chill.Parser.Legacy.Reading.{read_calls}
use vllm_chill.Parser.Legacy.Calls.{parse_legacy_format-read}
use vllm_chill.Parser.Legacy.RoundTrip.{
  render_calls, numbered, IsWritableCall, parse_legacy_format-render,
}
use vllm_chill.Parser.Arguments.{parse_arguments}
use vllm_chill.Parser.Arguments.Valid.{
  has_float, IsJsonPackage, IsArguments, parse_arguments-IsArguments,
}
use vllm_chill.Parser.Standard.{tag_pattern}
use vllm_chill.Parser.Standard.Bounds.{IsRegexp, IsMatch, IsNumbered}
use vllm_chill.Parser.Entry.{parse_xml_tool_calls}
use vllm_chill.Parser.Entry.Numbered.{parse_xml_tool_calls-IsNumbered}

-- Regular expressions that find one call, <tool_call>, at the start of a text.
abbrev first_tag : Match
first_tag = record {
  whole = record { first = 0; last = 11 };
  group = record { first = 1; last = 10 };
}

abbrev not_a_number : Tag
not_a_number = record { name = codes "x"; kind = codes "float"; content = codes "NaN" }

-- Packages that read a little: the call at the start, its name, and a tag with a float.
abbrev tools : Packages
tools = record {
  matches = λ pattern s. contains s (codes "<tool_call");
  find = λ pattern s. none;
  find_group =
      λ pattern s. if contains pattern (codes "tool_name") then some (codes " get ") else none;
  find_all =
      λ pattern s. if same pattern tag_pattern && leb 11 (length s) then first_tag ∷ [] else [];
  find_tags = λ pattern s. not_a_number ∷ [];
  replace_matches = λ pattern s replacement. s;
  unescape = λ s. s;
  is_json = λ s. same s (codes "{}");
  marshal_texts = λ m. some (codes "{}");
  marshal_values = λ m. if has_float m then none else some (codes "{}");
  scan_int = λ s. none;
  scan_float = λ s. some 0x7FF8000000000001;
}

finds_within : (b : Bool) (n : ℕ) → All (IsMatch n) (if b && leb 11 n then first_tag ∷ [] else [])
finds_within b n = elim (Bool-cases (b && leb 11 n)) [
  | inl e ↦ rw e (((omega arith, ground (arith, e)), (omega arith, ground (arith, e))), tt)
  | inr e ↦ rw e tt
]

finds_full : (b : Bool) → All (λ m. m.whole.first < m.whole.last) (if b then first_tag ∷ [] else [])
finds_full true = (omega arith, tt)
finds_full false = tt

tools-IsRegexp : IsRegexp tools
tools-IsRegexp = (
  (λ pattern s span h. ground (arith, h)),
  (λ pattern s. finds_within (same pattern tag_pattern) (length s)),
  (λ s. finds_full (same tag_pattern tag_pattern && leb 11 (length s))),
)

marshals : (m : Assoc Value) (s : Bytes) → tools.marshal_values m ≡ some s → tools.is_json s ≡ true
unfolding same
marshals m s h = ground (arith, h)

marshals_not : (m : Assoc Value) → tools.marshal_values m ≡ none → has_float m ≡ true
marshals_not m h = ground (arith, h)

tools-IsJsonPackage : IsJsonPackage tools
unfolding same
tools-IsJsonPackage = (refl, marshals, marshals_not)

abbrev one_call : Bytes
one_call = codes "<tool_call><tool_name> get </tool_name>"

parse_xml_tool_calls-IsNumbered_example :
    Returns (IsNumbered 0) (parse_xml_tool_calls tools one_call)
parse_xml_tool_calls-IsNumbered_example =
    parse_xml_tool_calls-IsNumbered tools one_call tools-IsRegexp

abbrev float_argument : Bytes
float_argument = codes " <x type=\"float\">NaN</x> "

parse_arguments-IsArguments_example :
    IsArguments tools (trim_space float_argument) (parse_arguments tools float_argument)
parse_arguments-IsArguments_example =
    parse_arguments-IsArguments tools float_argument tools-IsJsonPackage

-- The second call is cut off.
abbrev cut_off : Bytes
cut_off = codes "<function=get><parameter=k>v</parameter></tool_call><function=put><parameter=k"

parse_legacy_format-read_example :
    parse_legacy_format tools cut_off ≡ returns (read_calls tools cut_off)
parse_legacy_format-read_example = parse_legacy_format-read tools cut_off

abbrev two_calls : List (Bytes × Assoc Bytes)
two_calls =
    (codes "get", (codes "k", codes "a > b") ∷ (codes "k", codes "") ∷ []) ∷ (codes "put", []) ∷ []

two_calls-IsWritable : All IsWritableCall two_calls
unfolding trim_space skip_space space_at space_before
two_calls-IsWritable = (
  (
    refl,
    three,
    (
      (
        (λ h. cc),
        refl,
        ((refl, tt), (refl, tt)),
        (refl, (refl, (refl, (refl, (refl, (refl, tt)))))),
      ),
      (((λ h. cc), refl, ((refl, tt), (refl, tt)), (refl, tt)), tt),
    ),
  ),
  ((refl, three, tt), tt),
)
  where
    three : (false ≡ false) × ((false ≡ false) × ((false ≡ false) × Unit {0}))
    three = (refl, (refl, (refl, tt)))

parse_legacy_format-render_example :
    parse_legacy_format tools (render_calls two_calls) ≡ returns (numbered tools 0 two_calls)
parse_legacy_format-render_example = parse_legacy_format-render tools two_calls two_calls-IsWritable
