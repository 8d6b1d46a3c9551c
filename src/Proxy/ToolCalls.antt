-- ===== src/Proxy/ToolCalls.antt =====
-- pkg/proxy/xmltool_parser.go: the tool call parser as the response writer calls it, and what the two
-- do together.
use vllm_chill.Prelude.{
  ℕ, get_or_empty, Bytes, codes, Assoc, true, none, List, [], ◌∷◌, ◌++◌, length, All, some,
  split_on, ◌≡◌, refl, ap, ◌∙◌,
}
use vllm_chill.Parser.Run.{Run, returns, out_of_range, out_of_fuel}
use vllm_chill.Parser.Call.{ToolCall, Packages}
use vllm_chill.Parser.Legacy.{parse_legacy_format, legacy_arguments}
use vllm_chill.Parser.Ids.{generate_tool_call_id}
use vllm_chill.Parser.Legacy.RoundTrip.{
  written_call, render_calls, IsWritableCall, numbered, parse_legacy_format-render,
}
use vllm_chill.Parser.Reference.RoundTrip.{put_all}
use vllm_chill.Parser.Standard.{
  part_pattern, tag_pattern, parse_standard_xml_format, merge_streaming_fragments, merge_matches,
  parse_matches,
}
use vllm_chill.Parser.Entry.{
  preprocess_content, contains_tool_call_pattern, parse_content, parse_xml_tool_calls,
  legacy_if_empty,
}
use vllm_chill.Proxy.Writer.{Env, Writer}
use vllm_chill.Proxy.Writer.Write.{write, received, is_sse}
use vllm_chill.Proxy.Json.{Fields}
use vllm_chill.Proxy.Writer.Dedupe.{newline}
use vllm_chill.Proxy.Writer.Write.Event.{IsCallChunk}
use vllm_chill.Proxy.Writer.Write.Marker.{ends_stream}
use vllm_chill.Proxy.Writer.Write.Endings.{collected, first_call_is_sent}

-- What a run leaves to its caller; one that does not return, of which there is none, leaves nothing.
abbrev calls_of : Run (List ToolCall) → List ToolCall
calls_of (returns calls) = calls
calls_of out_of_range = []
calls_of out_of_fuel = []

-- parseXMLToolCalls
unfoldable pub parse_tool_calls : Packages → Bytes → List ToolCall
unfolding parse_xml_tool_calls
parse_tool_calls packages content = calls_of (parse_xml_tool_calls packages content)

-- The writer with the parser behind it.
abbrev pub with_parser : Packages → Env → Env
with_parser packages env = record env { parse_tool_calls = parse_tool_calls packages }

-- The text is one of the legacy format alone: an expression finds a call in it, the preprocessing finds
-- nothing to take away, and no tag of the standard format is found.
abbrev pub IsLegacyText : Packages → Bytes → Type 0
IsLegacyText packages s =
    (preprocess_content packages s ≡ s)
    × (contains_tool_call_pattern packages s ≡ true)
    × (packages.find_all part_pattern s ≡ [])
    × (packages.find_all tag_pattern s ≡ [])

parse_standard_xml_format-empty :
    (packages : Packages) (s : Bytes)
    → packages.find_all part_pattern s ≡ []
    → packages.find_all tag_pattern s ≡ []
    → parse_standard_xml_format packages s ≡ returns []
unfolding parse_standard_xml_format merge_streaming_fragments merge_matches parse_matches
parse_standard_xml_format-empty packages s parts tags =
    rw (parse_standard_xml_format, merge_streaming_fragments, parts, tags) refl

parse_content-legacy :
    (packages : Packages) (s : Bytes)
    → IsLegacyText packages s
    → parse_content packages s ≡ parse_legacy_format packages s
unfolding parse_content legacy_if_empty
parse_content-legacy packages s (pre, found, parts, tags) =
    rw (parse_content, found, parse_standard_xml_format-empty packages s parts tags) refl

parse_xml_tool_calls-legacy :
    (packages : Packages) (s : Bytes)
    → IsLegacyText packages s
    → parse_xml_tool_calls packages s ≡ parse_legacy_format packages s
unfolding parse_xml_tool_calls
parse_xml_tool_calls-legacy packages s h =
    ap (parse_content packages) h.0 ∙ parse_content-legacy packages s h

parse_tool_calls-render :
    (packages : Packages) (cs : List (Bytes × Assoc Bytes))
    → IsLegacyText packages (render_calls cs)
    → All IsWritableCall cs
    → parse_tool_calls packages (render_calls cs) ≡ numbered packages 0 cs
unfolding parse_tool_calls
parse_tool_calls-render packages cs h w = ap calls_of (
    parse_xml_tool_calls-legacy packages (render_calls cs) h
    ∙ parse_legacy_format-render packages cs w)

module _ (packages : Packages) (env : Env) (now : ℕ) (b : Bytes) (w : Writer) where
  -- A tool call that the model writes in the legacy format reaches the client: at the end of a stream
  -- whose text is such calls, the client gets one event and the end marker. The event's JSON is that of
  -- a chunk which gives one function call with the id call_a, the first call's name, and the JSON form
  -- of its parameters as arguments, and the finish reason tool_calls. The stream began like server-sent events and
  -- is in XML mode, a line of the write is the end marker, the client's writer makes no error, and the
  -- calls are such that they are read back.
  pub legacy_call_is_sent :
      (name : Bytes) (ps : Assoc Bytes) (cs : List (Bytes × Assoc Bytes))
      → is_sse (received b w) ≡ true
      → (collected (with_parser packages env) now b w).xml_mode ≡ true
      → ends_stream (split_on newline b) ≡ true
      → (collected (with_parser packages env) now b w).accumulated ≡ render_calls ((name, ps) ∷ cs)
      → IsLegacyText packages (render_calls ((name, ps) ∷ cs))
      → All IsWritableCall ((name, ps) ∷ cs)
      → ((ws : List Bytes) (p : Bytes) → (env.accept ws p).1 ≡ none)
      → ((write (with_parser packages env) now b w).0 ≡ (length b, none))
        × ((m : Fields) × IsCallChunk
              (codes "call_a")
              (codes "function")
              name
              (get_or_empty (packages.marshal_texts (put_all ps [])))
              m
            × ((write (with_parser packages env) now b w).1.sent
                ≡ w.sent
                  ++ (codes "data: "
                      ∷ env.marshal (some m)
                      ∷ codes "\n\n"
                      ∷ codes "data: [DONE]\n\n"
                      ∷ [])))
  unfolding generate_tool_call_id legacy_arguments
  legacy_call_is_sent name ps cs sse xml ends text legacy writable good =
      let (reply, event, counts, clean) =
        first_call_is_sent (with_parser packages env) now b w
          (written_call (codes "call_a") name (legacy_arguments packages (put_all ps [])))
          (numbered packages 1 cs) sse xml ends
          (ap (parse_tool_calls packages) text
            ∙ parse_tool_calls-render packages ((name, ps) ∷ cs) legacy writable)
          good in
      (reply, event)
