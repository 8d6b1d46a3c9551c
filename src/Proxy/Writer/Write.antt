-- ===== src/Proxy/Writer/Write.antt =====
-- (*responseWriter).Write and buildSingleToolCallChunk of pkg/proxy/response_writer.go.
pub mod Keeps
pub mod Modes
pub mod Streams
pub mod Event
pub mod Marker
pub mod Endings
use vllm_chill.Prelude.{
  ℕ, ◌+◌, Bytes, codes, has_prefix, split_on, Bool, true, false, not, ◌&&◌, Option, none, some,
  List, [], ◌∷◌, ◌++◌, length, Error, if◌then◌else◌, to_decimal,
}
use vllm_chill.Kubernetes.Models.{is_empty}
use vllm_chill.Proxy.Json.{
  Json, null, num, str, arr, obj, nil, cons, Fields, end, field, Chunk, set_field,
}
use vllm_chill.Proxy.Writer.{
  ToolCall, Metric, proxy_latency, xml_parsing, Env, Writer, record_metric, scan_lines, forward,
  send_all, send_anyway,
}
use vllm_chill.Proxy.Writer.Dedupe.{newline, deduplicate}

-- the minimal chunk that stands in where none was buffered
unfoldable pub fallback_chunk : ℕ → ToolCall → Fields
unfolding to_decimal
fallback_chunk now t = field (codes "id") (str (codes "chatcmpl-" ++ t.id)) (
    field (codes "object") (str (codes "chat.completion.chunk")) (
      field (codes "created") (num (to_decimal now))
        (field (codes "model") (str (codes "unknown")) end)))

-- the template: the first buffered chunk, copied entry by entry
unfoldable pub template_chunk : ℕ → ToolCall → List Chunk → Fields
unfolding fallback_chunk
template_chunk now t [] = fallback_chunk now t
template_chunk now t (none ∷ cs) = end
template_chunk now t (some m ∷ cs) = m

unfoldable pub tool_call_choices : ToolCall → Json
tool_call_choices t = arr (
    cons
      (obj (
        field (codes "index") (num (codes "0")) (
          field (codes "delta")
            (obj (
              field (codes "tool_calls")
                (arr (
                  cons
                    (obj (
                      field (codes "index") (num (codes "0")) (
                        field (codes "id") (str t.id) (
                          field (codes "type") (str t.kind) (
                            field (codes "function")
                              (obj (
                                field (codes "name") (str t.name)
                                  (field (codes "arguments") (str t.arguments) end)))
                              end)))))
                    nil))
                end))
            (field (codes "finish_reason") (str (codes "tool_calls")) end))))
      nil)

-- buildSingleToolCallChunk, before and after json.Marshal
unfoldable pub single_chunk : ℕ → ToolCall → List Chunk → Fields
unfolding template_chunk tool_call_choices set_field
single_chunk now t cs = set_field (codes "choices") (tool_call_choices t) (template_chunk now t cs)

unfoldable pub build_single_tool_call_chunk : Env → ℕ → ToolCall → Writer → Bytes
unfolding single_chunk
build_single_tool_call_chunk env now t w = env.marshal (some (single_chunk now t w.chunk_buffer))

abbrev pub done_marker : Bytes
done_marker = codes "data: [DONE]" ++ newline ∷ newline ∷ []

-- the writes for one event
abbrev pub event_pieces : Bytes → List Bytes
event_pieces json = codes "data: " ∷ json ∷ (newline ∷ newline ∷ []) ∷ []

unfoldable pub flush_pieces : Env → List Chunk → List Bytes
flush_pieces env [] = done_marker ∷ []
flush_pieces env (c ∷ cs) = event_pieces (env.marshal c) ++ flush_pieces env cs

unfoldable pub reset : Writer → Writer
reset w = record w { sse_buffer = []; accumulated = []; xml_mode = false; chunk_buffer = [] }

-- what follows the four writes of finish_calls, by the first error of these
unfoldable pub close_calls : ℕ → Bytes → Option Error × Writer → (ℕ × Option Error) × Writer
unfolding reset
close_calls n chunk (some e, w) = ((0, some e), w)
close_calls n chunk (none, w) = (
  (n, none),
  reset (record w {
    bytes_written = w.bytes_written + (length chunk + 20);
    body = if w.capture_body then w.body ++ chunk else w.body;
  }),
)

abbrev pub call_pieces : Bytes → List Bytes
call_pieces chunk = event_pieces chunk ++ done_marker ∷ []

abbrev pub counted : Bool → ℕ → Writer → Writer
counted success count w = record w { metrics = record_metric (xml_parsing success count) w.metrics }

-- the end of the stream in XML mode with at least one tool call
unfoldable pub finish_calls : Env → ℕ → ℕ → ToolCall → ℕ → Writer → (ℕ × Option Error) × Writer
unfolding build_single_tool_call_chunk send_all close_calls
finish_calls env now n t count w =
    let chunk = build_single_tool_call_chunk env now t (counted true count w) in
    close_calls n chunk (send_all env (call_pieces chunk) (counted true count w))

-- the end of the stream in XML mode with no tool call
unfoldable pub finish_failed : Env → ℕ → ℕ → Writer → (ℕ × Option Error) × Writer
unfolding flush_pieces send_anyway reset
finish_failed env now n w =
    ((n, none), reset (send_anyway env (flush_pieces env w.chunk_buffer) (counted false 0 w)))

unfoldable pub finish : Env → ℕ → ℕ → List ToolCall → Writer → (ℕ × Option Error) × Writer
unfolding finish_calls finish_failed
finish env now n [] w = finish_failed env now n w
finish env now n (t ∷ ts) w = finish_calls env now n t (length (t ∷ ts)) w

-- a native tool call was seen: what is left after the deduplication is passed on
unfoldable pub pass_deduplicated : Env → Bytes → Writer → (ℕ × Option Error) × Writer
unfolding deduplicate forward is_empty
pass_deduplicated env b w =
    let ((left, filtered), w') = deduplicate env b w in
    let (e, w'') = forward env left w' in
    if is_empty left then ((length b, none), w') else ((length b, e), w'')

abbrev pub with_latency : Writer → Writer
with_latency w = record w {
  metrics = record_metric (proxy_latency (codes "xml_parsing")) w.metrics;
}

-- What Write does after the scan of the lines
unfoldable pub react : Env → ℕ → Bytes → Bool → Writer → (ℕ × Option Error) × Writer
unfolding forward
react env now b done w =
    let (e, w') = forward env b w in
    if w.xml_mode && done
    then finish env now (length b) (env.parse_tool_calls w.accumulated) (with_latency w)
    else if not w.xml_mode
    then (if w.tool_calls_detected then pass_deduplicated env b w else ((length b, e), w'))
    else ((length b, none), w)

-- the stream so far begins like server-sent events
unfoldable pub is_sse : Writer → Bool
unfolding has_prefix
is_sse w = has_prefix w.sse_buffer (codes "data: ")

abbrev pub received : Bytes → Writer → Writer
received b w = record w { sse_buffer = w.sse_buffer ++ b }

-- the writer after the loop over the lines, and hasDoneMarker
abbrev pub scanned : Env → ℕ → Bytes → Writer → Writer × Bool
scanned env now b w = scan_lines env now (split_on newline b) false (received b w)

-- (*responseWriter).Write
unfoldable pub write : Env → ℕ → Bytes → Writer → (ℕ × Option Error) × Writer
unfolding forward
write env now b w =
    let w1 = received b w in
    let (e, w2) = forward env b w1 in
    let (w3, done) = scanned env now b w in
    if is_sse w1 then react env now b done w3 else ((length b, e), w2)

-- The calls of Write that a handler makes, each with the time of the call.
unfoldable pub write_each : Env → List (ℕ × Bytes) → Writer → Writer
unfolding write
write_each env [] w = w
write_each env ((now, b) ∷ bs) w = write_each env bs (write env now b w).1
