-- ===== src/Examples/Streams.antt =====
-- The theorems on the writer, for clients that take every write and for chunks whose JSON is their
-- text.
use vllm_chill.Prelude.{
  ℕ, Bytes, codes, true, false, none, some, List, [], ◌∷◌, ◌++◌, length, ◌≡◌, refl, pos, map, index,
  contains, split_on, same, has_prefix, trim_prefix, arith,
}
use vllm_chill.Kubernetes.Models.{is_empty}
use vllm_chill.Proxy.Json.{
  Json, Fields, str, arr, obj, nil, cons, field, end, Chunk, as_map, get_field, find_field,
  as_object, as_items, first_item, as_text,
}
use vllm_chill.Proxy.Writer.{
  xml_parsing, proxy_latency, ToolCall, Env, Writer, payload_of, scan_lines, chunk_of, observe,
  note_native, note_content, store_chunk, tool_calls_of, content_of, delta_of, looks_like_xml,
}
use vllm_chill.Proxy.Writer.Dedupe.{newline, deduplicate}
use vllm_chill.Proxy.Writer.Dedupe.Repeat.{without_chunks, deduplicate_each, repeat_is_dropped}
use vllm_chill.Proxy.Writer.Write.{write, write_each, is_sse}
use vllm_chill.Proxy.Writer.Write.Event.{IsCallChunk}
use vllm_chill.Proxy.Writer.Write.Keeps.{IsCoherent}
use vllm_chill.Proxy.Writer.Write.Modes.{write_each-IsCoherent, native_is_final}
use vllm_chill.Proxy.Writer.Write.Streams.{IsPlain, IsPlainStream, write_each-IsPlain}
use vllm_chill.Proxy.Writer.Write.Endings.{IsReset, first_call_is_sent}

-- a chunk with a text
abbrev text_fields : Bytes → Fields
text_fields s =
    (field (codes "choices")
      (arr (cons (obj (field (codes "delta") (obj (field (codes "content") (str s) end)) end)) nil))
      end)

abbrev call : Bytes → ToolCall
call id = record { id = id; kind = codes "function"; name = codes "f"; arguments = codes "{}" }

abbrev text_chunk : Bytes → Json
text_chunk s = obj (text_fields s)

-- a client that takes every write, and a parser that finds some calls in every text
abbrev pub client : List ToolCall → Env
client calls = record {
  unmarshal = λ b. some (text_chunk b);
  marshal = λ c. codes "{}";
  to_int = λ x. pos 0;
  hash = λ b. b;
  parse_tool_calls = λ b. calls;
  accept = λ ws p. (length p, none);
}

-- no chunk has a JSON form
abbrev deaf : Env
deaf = record (client []) { unmarshal = λ b. none }

abbrev pub fresh : Writer
fresh = record {
  status_code = 200;
  bytes_written = 0;
  capture_body = false;
  body = [];
  sse_buffer = [];
  accumulated = [];
  xml_mode = false;
  xml_start = 0;
  chunk_buffer = [];
  tool_calls_detected = false;
  metrics = some [];
  seen_chunks = [];
  last_tool_call_args = [];
  tool_call_ids = [];
  sent = [];
  headers_sent = [];
}

abbrev native : Writer
native = record fresh { tool_calls_detected = true }

fresh-IsCoherent : IsCoherent fresh
fresh-IsCoherent = record { native_excludes_xml = λ h. refl; one_chunk = omega arith }

native-IsCoherent : IsCoherent native
native-IsCoherent = record { native_excludes_xml = λ h. refl; one_chunk = omega arith }

pub fresh-IsPlain : IsPlain fresh
fresh-IsPlain = record { native = refl; xml = refl; text = tt }

abbrev hello : List (ℕ × Bytes)
hello = (0, codes "data: hi\n\n") ∷ (1, codes "data: [DONE]\n\n") ∷ []

abbrev tagged : List (ℕ × Bytes)
tagged = (0, codes "data: <function=f>\n\n") ∷ (1, codes "data: [DONE]\n\n") ∷ []

abbrev opening : Bytes
opening = codes "data: <function=f>\n\n"

abbrev whole : Bytes
whole = codes "data: <function=f>\n\ndata: [DONE]\n\n"

hello-IsPlainStream : IsPlainStream (client []) hello
unfolding payload_of has_prefix trim_prefix split_on chunk_of as_map tool_calls_of content_of
    delta_of get_field find_field as_object as_items first_item as_text same
hello-IsPlainStream = (
  ((refl, (λ h. omega arith, (λ h. omega arith, tt))), (tt, (tt, tt))),
  ((tt, (tt, (tt, tt))), tt),
)

abbrev kept_chunk : Chunk
kept_chunk = some (text_fields (codes "<function=f>"))

write_each-IsPlain_example :
    ((write_each (client []) hello fresh).sent ≡ [] ++ map (λ t. t.1) hello)
    × IsPlain (write_each (client []) hello fresh)
write_each-IsPlain_example =
    write_each-IsPlain (client []) hello fresh hello-IsPlainStream fresh-IsPlain

write_each-IsCoherent_example : IsCoherent (write_each (client []) tagged fresh)
write_each-IsCoherent_example = write_each-IsCoherent (client []) tagged fresh fresh-IsCoherent

native_is_final_example :
    ((write_each (client []) tagged native).tool_calls_detected ≡ true)
    × ((write_each (client []) tagged native).xml_mode ≡ false)
native_is_final_example = native_is_final (client []) tagged native native-IsCoherent refl

first_call_is_sent_example :
    let env = client (call (codes "1") ∷ call (codes "2") ∷ []) in
    let (result, after) = write env 0 whole fresh in
    (result ≡ (length whole, none))
    × ((m : Fields) × IsCallChunk (codes "1") (codes "function") (codes "f") (codes "{}") m
        × (after.sent
            ≡ []
              ++ (codes "data: "
                  ∷ env.marshal (some m)
                  ∷ codes "\n\n"
                  ∷ codes "data: [DONE]\n\n"
                  ∷ [])))
    × (after.metrics ≡ some (proxy_latency (codes "xml_parsing") ∷ xml_parsing true 2 ∷ []))
    × IsReset env after
unfolding is_sse has_prefix scan_lines split_on payload_of trim_prefix chunk_of as_map observe
    note_native note_content store_chunk tool_calls_of content_of delta_of get_field find_field
    as_object as_items first_item as_text looks_like_xml contains index same is_empty
first_call_is_sent_example =
    first_call_is_sent (client (call (codes "1") ∷ call (codes "2") ∷ [])) 0 whole fresh
      (call (codes "1")) (call (codes "2") ∷ []) refl refl refl refl (λ ws p. refl)

-- another write comes between the two
repeat_is_dropped_example :
    let after = deduplicate_each (client []) (whole ∷ codes "data: other\n\n" ∷ []) fresh in
    ((deduplicate (client []) whole after).0.0 ≡ without_chunks (split_on newline whole) [])
    × ((deduplicate (client []) whole after).1 ≡ after)
repeat_is_dropped_example = repeat_is_dropped (client []) whole (codes "data: other\n\n" ∷ []) fresh
