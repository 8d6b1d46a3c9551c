-- ===== src/Proxy/Writer/Write/Modes.antt =====
-- The modes of the response writer: what a call of Write keeps, and what each mode sends.
use vllm_chill.Prelude.{
  ℕ, Bytes, Bool, true, false, Option, none, some, List, [], ◌∷◌, length, Error, split_on, ◌≡◌,
  refl, arith, ◌∙◌,
}
use vllm_chill.Proxy.Writer.{ToolCall, Env, Writer, send_all}
use vllm_chill.Proxy.Writer.Dedupe.{newline}
use vllm_chill.Proxy.Writer.Write.{
  write, write_each, received, scanned, with_latency, react, is_sse, finish, finish_calls,
  close_calls, call_pieces, counted, pass_deduplicated, reset, flush_pieces,
  build_single_tool_call_chunk,
}
use vllm_chill.Proxy.Writer.Write.Keeps.{
  IsCoherent, dedupe_lines-SameModes, scan_lines-IsCoherent, scan_lines-native, scan_lines-sent,
  send_all-IsCoherent, send_all-native, send_anyway-native,
}

module _ (env : Env) where
  close_calls-IsCoherent :
      (n : ℕ) (chunk : Bytes) (r : Option Error × Writer)
      → IsCoherent r.1
      → IsCoherent (close_calls n chunk r).1
  unfolding close_calls
  close_calls-IsCoherent n chunk (none, w) h = ground arith
  close_calls-IsCoherent n chunk (some e, w) h = h

  close_calls-native :
      (n : ℕ) (chunk : Bytes) (r : Option Error × Writer)
      → (close_calls n chunk r).1.tool_calls_detected ≡ r.1.tool_calls_detected
  unfolding close_calls
  close_calls-native n chunk (none, w) = refl
  close_calls-native n chunk (some e, w) = refl

  finish-IsCoherent :
      (now n : ℕ) (ts : List ToolCall) (w : Writer)
      → IsCoherent w
      → IsCoherent (finish env now n ts w).1
  finish-IsCoherent now n [] w h = unfold finish reset in ground arith
  finish-IsCoherent now n (t ∷ ts) w h =
      let w' = counted true (length (t ∷ ts)) w in
      let chunk = build_single_tool_call_chunk env now t w' in
      let h' : IsCoherent w' = record {
        native_excludes_xml = h.native_excludes_xml;
        one_chunk = h.one_chunk;
      } in
      unfold finish finish_calls in
      close_calls-IsCoherent n chunk _ (send_all-IsCoherent env (call_pieces chunk) w' h')

  finish-native :
      (now n : ℕ) (ts : List ToolCall) (w : Writer)
      → (finish env now n ts w).1.tool_calls_detected ≡ w.tool_calls_detected
  finish-native now n [] w =
      unfold finish reset in
      send_anyway-native env (flush_pieces env w.chunk_buffer) (counted false 0 w)
  finish-native now n (t ∷ ts) w =
      let w' = counted true (length (t ∷ ts)) w in
      let chunk = build_single_tool_call_chunk env now t w' in
      unfold finish finish_calls in
      (close_calls-native n chunk (send_all env (call_pieces chunk) w')
        ∙ send_all-native env (call_pieces chunk) w')

  pass_deduplicated-IsCoherent :
      (b : Bytes) (w : Writer) → IsCoherent w → IsCoherent (pass_deduplicated env b w).1
  unfolding pass_deduplicated
  pass_deduplicated-IsCoherent b w h =
      ground (arith, dedupe_lines-SameModes env (split_on newline b) [] w)

  pass_deduplicated-native :
      (b : Bytes) (w : Writer)
      → (pass_deduplicated env b w).1.tool_calls_detected ≡ w.tool_calls_detected
  unfolding pass_deduplicated
  pass_deduplicated-native b w =
      ground (arith, dedupe_lines-SameModes env (split_on newline b) [] w)

  with_latency-IsCoherent : (w : Writer) → IsCoherent w → IsCoherent (with_latency w)
  with_latency-IsCoherent w h = record {
    native_excludes_xml = h.native_excludes_xml;
    one_chunk = h.one_chunk;
  }

  react-IsCoherent :
      (now : ℕ) (b : Bytes) (done : Bool) (w : Writer)
      → IsCoherent w
      → IsCoherent (react env now b done w).1
  unfolding react
  react-IsCoherent now b done w h = ground (
    arith,
    finish-IsCoherent now (length b) (env.parse_tool_calls w.accumulated) (with_latency w)
        (with_latency-IsCoherent w h),
    pass_deduplicated-IsCoherent b w h,
  )

  react-native :
      (now : ℕ) (b : Bytes) (done : Bool) (w : Writer)
      → (react env now b done w).1.tool_calls_detected ≡ w.tool_calls_detected
  unfolding react
  react-native now b done w = ground (
    arith,
    finish-native now (length b) (env.parse_tool_calls w.accumulated) (with_latency w),
    pass_deduplicated-native b w,
  )

  write-IsCoherent :
      (now : ℕ) (b : Bytes) (w : Writer) → IsCoherent w → IsCoherent (write env now b w).1
  unfolding write
  write-IsCoherent now b w h =
      let h' : IsCoherent (received b w) = record {
        native_excludes_xml = h.native_excludes_xml;
        one_chunk = h.one_chunk;
      } in
      let k = scan_lines-IsCoherent env now (split_on newline b) false (received b w) h' in
      ground (arith, react-IsCoherent now b (scanned env now b w).1 (scanned env now b w).0 k)

  write-native :
      (now : ℕ) (b : Bytes) (w : Writer)
      → w.tool_calls_detected ≡ true
      → (write env now b w).1.tool_calls_detected ≡ true
  unfolding write
  write-native now b w h = ground (
    arith,
    scan_lines-native env now (split_on newline b) false (received b w) h,
    react-native now b (scanned env now b w).1 (scanned env now b w).0,
  )

  -- Every sequence of writes leaves a coherent writer coherent.
  pub write_each-IsCoherent :
      (bs : List (ℕ × Bytes)) (w : Writer) → IsCoherent w → IsCoherent (write_each env bs w)
  unfolding write_each
  write_each-IsCoherent [] w h = h
  write_each-IsCoherent ((now, b) ∷ bs) w h =
      write_each-IsCoherent bs (write env now b w).1 (write-IsCoherent now b w h)

  write_each-native :
      (bs : List (ℕ × Bytes)) (w : Writer)
      → w.tool_calls_detected ≡ true
      → (write_each env bs w).tool_calls_detected ≡ true
  unfolding write_each
  write_each-native [] w h = h
  write_each-native ((now, b) ∷ bs) w h =
      write_each-native bs (write env now b w).1 (write-native now b w h)

  -- Once a native tool call was seen, no sequence of writes forgets it or enters XML mode.
  pub native_is_final :
      (bs : List (ℕ × Bytes)) (w : Writer)
      → IsCoherent w
      → w.tool_calls_detected ≡ true
      → ((write_each env bs w).tool_calls_detected ≡ true)
        × ((write_each env bs w).xml_mode ≡ false)
  native_is_final bs w h native =
      let kept = write_each-native bs w native in
      (kept, (write_each-IsCoherent bs w h).native_excludes_xml kept)

  -- While XML is being collected and the end marker has not come, Write reports success, sends
  -- nothing to the client, and goes on collecting. The stream began like server-sent events.
  pub collecting_is_silent :
      (now : ℕ) (b : Bytes) (w : Writer)
      → is_sse (received b w) ≡ true
      → (scanned env now b w).0.xml_mode ≡ true
      → (scanned env now b w).1 ≡ false
      → ((write env now b w).0 ≡ (length b, none))
        × ((write env now b w).1.sent ≡ w.sent)
        × ((write env now b w).1.xml_mode ≡ true)
  unfolding write react
  collecting_is_silent now b w sse xml more =
      ground (arith, scan_lines-sent env now (split_on newline b) false (received b w))
