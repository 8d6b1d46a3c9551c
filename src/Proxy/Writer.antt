-- ===== src/Proxy/Writer.antt =====
-- pkg/proxy/response_writer.go: the writer between vLLM's answer and the client.
pub mod Dedupe
pub mod Write
use vllm_chill.Prelude.{
  ℕ, ◌+◌, Bytes, codes, same, has_prefix, trim_prefix, contains, split_on, Bool, true, false, not,
  ◌&&◌, ◌||◌, Option, none, some, List, [], ◌∷◌, ◌++◌, length, ℤ, Error, if◌then◌else◌, to_decimal,
}
pub use vllm_chill.Parser.Call.{ToolCall}
use vllm_chill.Kubernetes.Models.{is_empty}
use vllm_chill.Proxy.Json.{
  Json, null, bool, num, str, arr, obj, Items, nil, cons, Fields, end, field, Chunk, get_field,
  as_map, as_object, as_items, as_text, first_item, set_field,
}

-- What the writer tells the metrics recorder.
pub data Metric : Type 0 where
  -- RecordProxyLatency
  proxy_latency : Bytes → Metric
  -- RecordXMLParsing
  xml_parsing : Bool → ℕ → Metric

-- What the writer uses of the rest of the program and of the packages json, sha256 and net/http.
pub record Env : Type 0 where
  -- json.Unmarshal into an interface, `none` for an error
  pub unmarshal : Bytes → Option Json
  -- json.Marshal of a map
  pub marshal : Chunk → Bytes
  -- int(x) of a float64
  pub to_int : Bytes → ℤ
  -- sha256 in hexadecimal
  pub hash : Bytes → Bytes
  -- parseXMLToolCalls
  pub parse_tool_calls : Bytes → List ToolCall
  -- the answer of the client's writer to a write, after the writes that it has had
  pub accept : List Bytes → Bytes → ℕ × Option Error

pub record Writer : Type 0 where
  pub status_code : ℕ
  pub bytes_written : ℕ
  pub capture_body : Bool
  pub body : Bytes
  pub sse_buffer : Bytes
  pub accumulated : Bytes
  pub xml_mode : Bool
  pub xml_start : ℕ
  pub chunk_buffer : List Chunk
  pub tool_calls_detected : Bool
  -- `none` where the recorder is nil, else what it was told
  pub metrics : Option (List Metric)
  pub seen_chunks : List Bytes
  pub last_tool_call_args : List (ℤ × Bytes)
  pub tool_call_ids : List Bytes
  -- the calls of Write and WriteHeader on the client's writer
  pub sent : List Bytes
  pub headers_sent : List ℕ

-- newResponseWriter
unfoldable pub new_response_writer : Bool → Bool → Writer
new_response_writer capture with_metrics = record {
  status_code = 200;
  bytes_written = 0;
  capture_body = capture;
  body = [];
  sse_buffer = [];
  accumulated = [];
  xml_mode = false;
  xml_start = 0;
  chunk_buffer = [];
  tool_calls_detected = false;
  metrics = if with_metrics then some [] else none;
  seen_chunks = [];
  last_tool_call_args = [];
  tool_call_ids = [];
  sent = [];
  headers_sent = [];
}

-- WriteHeader
unfoldable pub write_header : ℕ → Writer → Writer
write_header code w = record w { status_code = code; headers_sent = w.headers_sent ++ code ∷ [] }

-- if rw.metrics != nil { … }
abbrev pub record_metric : Metric → Option (List Metric) → Option (List Metric)
record_metric m none = none
record_metric m (some ms) = some (ms ++ m ∷ [])

-- chunk["choices"][0]["delta"], if each step has its type
unfoldable pub delta_of : Chunk → Chunk
unfolding get_field as_object as_items first_item
delta_of c =
    as_object (
      get_field (codes "delta") (as_object (first_item (as_items (get_field (codes "choices") c)))))

unfoldable pub tool_calls_of : Chunk → Items
unfolding delta_of
tool_calls_of c = as_items (get_field (codes "tool_calls") (delta_of c))

unfoldable pub content_of : Chunk → Bytes
unfolding delta_of as_text
content_of c = as_text (get_field (codes "content") (delta_of c))

abbrev pub has_items : Items → Bool
has_items nil = false
has_items (cons x xs) = true

-- the test that switches XML detection on
unfoldable pub looks_like_xml : Bytes → Bool
looks_like_xml s =
    contains s (codes "<function=")
    || (contains s (codes "<tool_call")
        || (contains s (codes "<function_call")
            || (contains s (codes "<function") && not (contains s (codes "function>")))))

-- the reaction to native tool calls in a chunk
unfoldable pub note_native : Bool → Writer → Writer
note_native calls w =
    if calls && not w.tool_calls_detected
    then (if w.xml_mode
        then record w {
          tool_calls_detected = true;
          xml_mode = false;
          accumulated = [];
          chunk_buffer = [];
        }
        else record w { tool_calls_detected = true })
    else w

-- the reaction to text in a chunk
unfoldable pub note_content : ℕ → Bytes → Writer → Writer
unfolding is_empty
note_content now text w =
    if is_empty text
    then w
    else let s = w.accumulated ++ text in
      if not w.xml_mode && (not w.tool_calls_detected && looks_like_xml s)
      then record w { accumulated = s; xml_mode = true; xml_start = now }
      else record w { accumulated = s }

abbrev pub first_chunk : Chunk → List Chunk → List Chunk
first_chunk c [] = c ∷ []
first_chunk c (d ∷ ds) = d ∷ ds

unfoldable pub store_chunk : Chunk → Writer → Writer
store_chunk c w = record w { chunk_buffer = first_chunk c w.chunk_buffer }

unfoldable pub observe : ℕ → Chunk → Writer → Writer
observe now c w =
    store_chunk c (note_content now (content_of c) (note_native (has_items (tool_calls_of c)) w))

-- the payload of a line, if it is a data line
unfoldable pub payload_of : Bytes → Option Bytes
unfolding has_prefix trim_prefix
payload_of line =
    if has_prefix line (codes "data: ") then some (trim_prefix line (codes "data: ")) else none

abbrev pub is_done : Option Bytes → Bool
is_done none = false
is_done (some s) = same s (codes "[DONE]")

abbrev pub observe_if : ℕ → Option Chunk → Writer → Writer
observe_if now none w = w
observe_if now (some c) w = observe now c w

module _ (env : Env) where
  -- the chunk of a line that is neither the end marker nor refused by json.Unmarshal
  unfoldable pub chunk_of : Option Bytes → Option Chunk
  unfolding as_map
  chunk_of none = none
  chunk_of (some s) = if same s (codes "[DONE]") then none else as_map (env.unmarshal s)

  -- The loop of Write over the lines: the writer, and hasDoneMarker.
  unfoldable pub scan_lines : ℕ → List Bytes → Bool → Writer → Writer × Bool
  scan_lines now [] done w = (w, done)
  scan_lines now (l ∷ ls) done w =
      scan_lines now ls (done || is_done (payload_of l))
        (observe_if now (chunk_of (payload_of l)) w)

  -- rw.ResponseWriter.Write(data)
  unfoldable pub send : Bytes → Writer → (ℕ × Option Error) × Writer
  send bytes w = (env.accept w.sent bytes, record w { sent = w.sent ++ bytes ∷ [] })

  -- a write that is counted and captured
  unfoldable pub forward : Bytes → Writer → Option Error × Writer
  unfolding send
  forward bytes w =
      let ((n, e), w') = send bytes w in
      (
        e,
        record w' {
          bytes_written = w'.bytes_written + n;
          body = if w'.capture_body then w'.body ++ bytes else w'.body;
        },
      )

  -- writes one after the other up to the first error
  unfoldable pub send_all : List Bytes → Writer → Option Error × Writer
  unfolding send
  send_all [] w = (none, w)
  send_all (p ∷ ps) w =
      let ((n, e), w') = send p w in elim e [ none ↦ send_all ps w' | some x ↦ (some x, w') ]

  -- writes whose errors are ignored
  unfoldable pub send_anyway : List Bytes → Writer → Writer
  unfolding send
  send_anyway [] w = w
  send_anyway (p ∷ ps) w = send_anyway ps (send p w).1
