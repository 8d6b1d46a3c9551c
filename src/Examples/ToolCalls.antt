-- ===== src/Examples/ToolCalls.antt =====
-- The theorem on the response writer with the tool call parser behind it.
use vllm_chill.Prelude.{
  Bytes, codes, false, none, some, [], ◌∷◌, ◌++◌, length, ◌≡◌, refl, index, contains, split_on,
  same, has_prefix, trim_prefix,
}
use vllm_chill.Kubernetes.Models.{is_empty}
use vllm_chill.Proxy.Json.{
  Fields, as_map, get_field, find_field, as_object, as_items, first_item, as_text,
}
use vllm_chill.Proxy.Writer.{
  payload_of, scan_lines, chunk_of, observe, note_native, note_content, store_chunk, tool_calls_of,
  content_of, delta_of, looks_like_xml,
}
use vllm_chill.Proxy.Writer.Write.{write, is_sse}
use vllm_chill.Proxy.Writer.Write.Event.{IsCallChunk}
use vllm_chill.Parser.Call.{Packages}
use vllm_chill.Parser.Text.{
  trim_space, skip_space, space_at, space_before, replace_all, replace_from,
}
use vllm_chill.Parser.Legacy.{legacy_arguments}
use vllm_chill.Parser.Entry.{
  preprocess_content, contains_tool_call_pattern, protect_non_xml_less_than,
}
use vllm_chill.Proxy.ToolCalls.{with_parser, legacy_call_is_sent}
use vllm_chill.Examples.Streams.{client, fresh}

-- A stream with one tool call in its text, and regular expressions that find that one only.
abbrev called : Bytes
called =
    codes "data: <function=f><parameter=k>v</parameter></function></tool_call>\n\ndata: [DONE]\n\n"

abbrev plain_packages : Packages
plain_packages = record {
  matches = λ pattern s. contains s (codes "<function=");
  find = λ pattern s. none;
  find_group = λ pattern s. none;
  find_all = λ pattern s. [];
  find_tags = λ pattern s. [];
  replace_matches = λ pattern s replacement. s;
  unescape = λ s. s;
  is_json = λ s. false;
  marshal_texts = λ m. some (codes "{\"k\":\"v\"}");
  marshal_values = λ m. none;
  scan_int = λ s. none;
  scan_float = λ s. none;
}

legacy_call_is_sent_example :
    let env = with_parser plain_packages (client []) in
    ((write env 0 called fresh).0 ≡ (length called, none))
    × ((m : Fields) × IsCallChunk
          (codes "call_a")
          (codes "function")
          (codes "f")
          (codes "{\"k\":\"v\"}")
          m
        × ((write env 0 called fresh).1.sent
            ≡ []
              ++ (codes "data: "
                  ∷ env.marshal (some m)
                  ∷ codes "\n\n"
                  ∷ codes "data: [DONE]\n\n"
                  ∷ [])))
unfolding legacy_arguments is_sse has_prefix scan_lines split_on payload_of trim_prefix chunk_of
    as_map observe note_native note_content store_chunk tool_calls_of content_of delta_of get_field
    find_field as_object as_items first_item as_text looks_like_xml contains index same is_empty
    preprocess_content contains_tool_call_pattern replace_all replace_from protect_non_xml_less_than
    trim_space skip_space space_at space_before
legacy_call_is_sent_example =
    legacy_call_is_sent plain_packages (client []) 0 called fresh (codes "f")
      ((codes "k", codes "v") ∷ []) [] refl refl refl refl (refl, refl, refl, refl)
      (
        (refl, (refl, tt), (((λ h. cc), refl, ((refl, tt), (refl, tt)), (refl, (refl, tt))), tt)),
        tt,
      )
      (λ ws p. refl)
