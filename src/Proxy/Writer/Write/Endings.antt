-- ===== src/Proxy/Writer/Write/Endings.antt =====
-- What the client gets at the end of a stream in XML mode.
use vllm_chill.Prelude.{
  ℕ, Bytes, codes, split_on, true, false, Option, none, some, List, [], ◌∷◌, ◌++◌, length, Error,
  ◌≡◌, refl, sym, arith, append_assoc, append-nil, ap, ◌∙◌,
}
use vllm_chill.Proxy.Json.{Chunk, Fields}
use vllm_chill.Proxy.Writer.{
  ToolCall, Env, Writer, xml_parsing, proxy_latency, record_metric, send, send_all, send_anyway,
}
use vllm_chill.Proxy.Writer.Dedupe.{newline}
use vllm_chill.Proxy.Writer.Write.{
  write, received, scanned, react, is_sse, finish, finish_failed, close_calls, call_pieces, counted,
  with_latency, flush_pieces, reset, single_chunk, build_single_tool_call_chunk,
}
use vllm_chill.Proxy.Writer.Write.Event.{IsCallChunk, single_chunk-IsCallChunk}
use vllm_chill.Proxy.Writer.Write.Marker.{ends_stream, scan_lines-ends}
use vllm_chill.Proxy.Writer.Write.Keeps.{scan_lines-sent}

module _ (env : Env) where
  send_all-sent :
      (ps : List Bytes) (w : Writer)
      → ((ws : List Bytes) (p : Bytes) → (env.accept ws p).1 ≡ none)
      → (send_all env ps w).0 ≡ none × ((send_all env ps w).1.sent ≡ w.sent ++ ps)
  unfolding send_all
  send_all-sent [] w good = (refl, sym (append-nil w.sent))
  send_all-sent (p ∷ ps) w good = ground (
    arith,
    good w.sent p,
    send_all-sent ps (send env p w).1 good,
    append_assoc w.sent (p ∷ []) ps,
  )

  send_all-metrics : (ps : List Bytes) (w : Writer) → (send_all env ps w).1.metrics ≡ w.metrics
  unfolding send_all
  send_all-metrics [] w = refl
  send_all-metrics (p ∷ ps) w = ground (arith, send_all-metrics ps (send env p w).1)

  send_anyway-sent : (ps : List Bytes) (w : Writer) → (send_anyway env ps w).sent ≡ w.sent ++ ps
  unfolding send_anyway send
  send_anyway-sent [] w = sym (append-nil w.sent)
  send_anyway-sent (p ∷ ps) w =
      send_anyway-sent ps (send env p w).1 ∙ append_assoc w.sent (p ∷ []) ps

  -- nothing of the stream is left behind
  pub record IsReset (w : Writer) : Type 0 where
    pub sse_buffer : w.sse_buffer ≡ []
    pub accumulated : w.accumulated ≡ []
    pub xml_mode : w.xml_mode ≡ false
    pub chunk_buffer : w.chunk_buffer ≡ []

  close_calls-none :
      (n : ℕ) (chunk : Bytes) (r : Option Error × Writer)
      → r.0 ≡ none
      → ((close_calls n chunk r).0 ≡ (n, none))
        × ((close_calls n chunk r).1.sent ≡ r.1.sent)
        × ((close_calls n chunk r).1.metrics ≡ r.1.metrics)
        × IsReset (close_calls n chunk r).1
  unfolding close_calls
  close_calls-none n chunk (none, w) h = (
    refl,
    refl,
    refl,
    record { sse_buffer = refl; accumulated = refl; xml_mode = refl; chunk_buffer = refl },
  )
  close_calls-none n chunk (some e, w) h = cc

  finish-sent :
      (now n : ℕ) (t : ToolCall) (ts : List ToolCall) (w : Writer)
      → ((ws : List Bytes) (p : Bytes) → (env.accept ws p).1 ≡ none)
      → ((finish env now n (t ∷ ts) w).0 ≡ (n, none))
        × ((finish env now n (t ∷ ts) w).1.sent
            ≡ w.sent ++ call_pieces (build_single_tool_call_chunk env now t w))
        × ((finish env now n (t ∷ ts) w).1.metrics
            ≡ record_metric (xml_parsing true (length (t ∷ ts))) w.metrics)
        × IsReset (finish env now n (t ∷ ts) w).1
  unfolding finish
  finish-sent now n t ts w good =
      let chunk = build_single_tool_call_chunk env now t w in
      let w' = counted true (length (t ∷ ts)) w in
      let (done, sent) = send_all-sent (call_pieces chunk) w' good in
      let (reply, same_sent, same_metrics, clean) =
        close_calls-none n chunk (send_all env (call_pieces chunk) w') done in
      (reply, same_sent ∙ sent, same_metrics ∙ send_all-metrics (call_pieces chunk) w', clean)

  finish-failed :
      (now n : ℕ) (w : Writer)
      → ((finish env now n [] w).0 ≡ (n, none))
        × ((finish env now n [] w).1.sent ≡ w.sent ++ flush_pieces env w.chunk_buffer)
        × IsReset (finish env now n [] w).1
  finish-failed now n w =
      let pieces = flush_pieces env w.chunk_buffer in
      let sent = send_anyway-sent pieces (counted false 0 w) in
      unfold finish finish_failed reset in
      (
        refl,
        sent,
        record { sse_buffer = refl; accumulated = refl; xml_mode = refl; chunk_buffer = refl },
      )

  module _ (now : ℕ) (b : Bytes) (w : Writer) where
    -- the writer as the loop over the lines leaves it
    abbrev pub collected : Writer
    collected = (scanned env now b w).0

    collected-sent : collected.sent ≡ w.sent
    collected-sent = scan_lines-sent env now (split_on newline b) false (received b w)

    write-finishes :
        is_sse (received b w) ≡ true
        → collected.xml_mode ≡ true
        → (scanned env now b w).1 ≡ true
        → write env now b w
          ≡ finish env now
              (length b)
              (env.parse_tool_calls collected.accumulated)
              (with_latency collected)
    unfolding write react
    write-finishes sse xml done = ground arith

    -- The end of a stream whose text parses: if the client's writer makes no error, it gets one event
    -- and the end marker, in four writes. The event's JSON is that of a chunk which gives the first
    -- tool call alone, with its id, type, name and arguments, and the finish reason tool_calls. The
    -- call of Write reports success, the recorder gets the latency and the number of all the calls,
    -- and the buffers are reset. The stream began like server-sent events and is in XML mode, and a
    -- line of the write is the end marker.
    pub first_call_is_sent :
        (t : ToolCall) (ts : List ToolCall)
        → is_sse (received b w) ≡ true
        → collected.xml_mode ≡ true
        → ends_stream (split_on newline b) ≡ true
        → env.parse_tool_calls collected.accumulated ≡ t ∷ ts
        → ((ws : List Bytes) (p : Bytes) → (env.accept ws p).1 ≡ none)
        → let after = (write env now b w).1 in
          ((write env now b w).0 ≡ (length b, none))
          × ((m : Fields) × IsCallChunk t.id t.kind t.name t.arguments m
              × (after.sent
                  ≡ w.sent
                    ++ (codes "data: "
                        ∷ env.marshal (some m)
                        ∷ codes "\n\n"
                        ∷ codes "data: [DONE]\n\n"
                        ∷ [])))
          × (after.metrics
              ≡ record_metric
                  (xml_parsing true (length (t ∷ ts)))
                  (record_metric (proxy_latency (codes "xml_parsing")) collected.metrics))
          × IsReset after
    unfolding build_single_tool_call_chunk
    first_call_is_sent t ts sse xml ends parsed good =
        let done = scan_lines-ends env now (split_on newline b) false (received b w) ends in
        let (reply, sent, counts, clean) =
          finish-sent now (length b) t ts (with_latency collected) good in
        let chunk = single_chunk now t collected.chunk_buffer in
        rw (write-finishes sse xml done, parsed)
          (
            reply,
            (
              chunk,
              single_chunk-IsCallChunk now t collected.chunk_buffer,
              sent
                  ∙ ap (λ (ws : List Bytes). ws ++ call_pieces (env.marshal (some chunk)))
                      collected-sent,
            ),
            counts,
            clean,
          )

    -- The end of a stream whose text does not parse: whatever the client's writer answers, the call
    -- reports success, the client gets the kept chunk and the end marker, and the buffers are reset.
    pub failed_parse_sends :
        (c : Chunk)
        → is_sse (received b w) ≡ true
        → collected.xml_mode ≡ true
        → (scanned env now b w).1 ≡ true
        → env.parse_tool_calls collected.accumulated ≡ []
        → collected.chunk_buffer ≡ c ∷ []
        → ((write env now b w).0 ≡ (length b, none))
          × ((write env now b w).1.sent ≡ w.sent ++ call_pieces (env.marshal c))
          × IsReset (write env now b w).1
    failed_parse_sends c sse xml done parsed kept =
        let (reply, sent, clean) = finish-failed now (length b) (with_latency collected) in
        rw (write-finishes sse xml done, parsed)
          (
            reply,
            sent
                ∙ ap (λ (ws : List Bytes). ws ++ flush_pieces env collected.chunk_buffer)
                    collected-sent
                ∙ ap (λ (cs : List Chunk). w.sent ++ flush_pieces env cs) kept
                ∙ unfold flush_pieces in refl,
            clean,
          )
