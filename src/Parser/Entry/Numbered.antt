-- ===== src/Parser/Entry/Numbered.antt =====
-- What ParseXMLToolCalls gives on every text: calls with ids of their own.
use vllm_chill.Prelude.{
  ℕ, zero, suc, ◌<◌, Bytes, List, [], ◌∷◌, All, arith, ◌≡◌, ◌≢◌, refl, ◌∙◌, sym, inl, inr,
  Bool-cases,
}
use vllm_chill.Parser.Run.{Returns, Returns-bind}
use vllm_chill.Parser.Ids.{generate_tool_call_id, generate_tool_call_id-injective}
use vllm_chill.Parser.Call.{ToolCall, Packages}
use vllm_chill.Parser.Legacy.{tool_call, parse_legacy_format}
use vllm_chill.Parser.Legacy.Reading.{
  CallReading, nothing, reading, read_call, read_next_call, read_calls_from, read_calls,
}
use vllm_chill.Parser.Legacy.Calls.{parse_legacy_format-read}
use vllm_chill.Parser.Standard.{parse_standard_xml_format}
use vllm_chill.Parser.Standard.Bounds.{IsRegexp, IsNumbered, parse_standard_xml_format-IsNumbered}
use vllm_chill.Parser.Entry.{
  contains_tool_call_pattern, legacy_if_empty, parse_content, parse_xml_tool_calls,
  preprocess_content,
}

module _ (again : Bytes → ℕ → List ToolCall)
    (numbered : (s : Bytes) (k : ℕ) → IsNumbered k (again s k)) where
  read_next_call-IsNumbered :
      (k : ℕ) (read : CallReading) → IsNumbered k (read_next_call again k read)
  unfolding read_next_call tool_call
  read_next_call-IsNumbered k nothing = tt
  read_next_call-IsNumbered k (reading name arguments after) = (refl, refl, numbered after (suc k))

read_calls_from-IsNumbered :
    (packages : Packages) (fuel : ℕ) (s : Bytes) (k : ℕ)
    → IsNumbered k (read_calls_from packages fuel s k)
unfolding read_calls_from
read_calls_from-IsNumbered packages zero s k = tt
read_calls_from-IsNumbered packages (suc fuel) s k =
    read_next_call-IsNumbered (read_calls_from packages fuel)
      (read_calls_from-IsNumbered packages fuel) k (read_call packages s)

parse_legacy_format-IsNumbered :
    (packages : Packages) (content : Bytes)
    → Returns (IsNumbered 0) (parse_legacy_format packages content)
unfolding read_calls
parse_legacy_format-IsNumbered packages content =
    (_, parse_legacy_format-read packages content, read_calls_from-IsNumbered packages _ content 0)

legacy_if_empty-IsNumbered :
    (packages : Packages) (content : Bytes) (calls : List ToolCall)
    → IsNumbered 0 calls
    → Returns (IsNumbered 0) (legacy_if_empty packages content calls)
unfolding legacy_if_empty
legacy_if_empty-IsNumbered packages content [] h = parse_legacy_format-IsNumbered packages content
legacy_if_empty-IsNumbered packages content (c ∷ calls) h = (c ∷ calls, refl, h)

-- On every text, ParseXMLToolCalls returns: no slice is out of range, and no loop runs on. Its calls
-- are calls of functions, with the ids of their positions. The places that package regexp returns are
-- taken to lie in the text, as it documents.
pub parse_xml_tool_calls-IsNumbered :
    (packages : Packages) (content : Bytes)
    → IsRegexp packages
    → Returns (IsNumbered 0) (parse_xml_tool_calls packages content)
unfolding parse_xml_tool_calls parse_content
parse_xml_tool_calls-IsNumbered packages content regexp =
    let s = preprocess_content packages content in
    elim (Bool-cases (contains_tool_call_pattern packages s)) [
      | inl e ↦
          rw (parse_xml_tool_calls, parse_content, e)
            (Returns-bind (IsNumbered 0) (IsNumbered 0) (parse_standard_xml_format packages s)
              (legacy_if_empty packages s) (parse_standard_xml_format-IsNumbered packages s regexp)
              (legacy_if_empty-IsNumbered packages s))
      | inr e ↦ rw (parse_xml_tool_calls, parse_content, e) ([], refl, tt)
    ]

-- No two calls have the same id.
abbrev pub HasOwnIds : List ToolCall → Type 0
HasOwnIds [] = Unit {0}
HasOwnIds (c ∷ cs) = All (λ d. c.id ≢ d.id) cs × HasOwnIds cs

IsNumbered-other :
    (j k : ℕ) (id : Bytes) (cs : List ToolCall)
    → j < k
    → id ≡ generate_tool_call_id j
    → IsNumbered k cs
    → All (λ d. id ≢ d.id) cs
IsNumbered-other j k id [] h e n = tt
IsNumbered-other j k id (d ∷ cs) h e (hd, _, n) = (
  (λ same. ground (arith, h, generate_tool_call_id-injective j k (sym e ∙ same ∙ hd))),
  IsNumbered-other j (suc k) id cs (omega (arith, h)) e n,
)

IsNumbered-HasOwnIds : (k : ℕ) (cs : List ToolCall) → IsNumbered k cs → HasOwnIds cs
IsNumbered-HasOwnIds k [] n = tt
IsNumbered-HasOwnIds k (c ∷ cs) (hc, _, n) =
    (IsNumbered-other k (suc k) c.id cs (omega arith) hc n, IsNumbered-HasOwnIds (suc k) cs n)

-- The calls that ParseXMLToolCalls finds in a text have different ids, where package regexp returns
-- places in the text.
pub parse_xml_tool_calls-HasOwnIds :
    (packages : Packages) (content : Bytes)
    → IsRegexp packages
    → Returns HasOwnIds (parse_xml_tool_calls packages content)
parse_xml_tool_calls-HasOwnIds packages content regexp =
    let (calls, e, numbered) = parse_xml_tool_calls-IsNumbered packages content regexp in
    (calls, e, IsNumbered-HasOwnIds 0 calls numbered)
