-- ===== src/Proxy/Writer/Write/Keeps.antt =====
-- What the parts of Write keep: the modes, and what was sent.
use vllm_chill.Prelude.{
  ℕ, ◌≤◌, Bytes, Bool, true, false, Option, none, some, List, [], ◌∷◌, length, ◌≡◌, refl, arith,
  ◌∙◌,
}
use vllm_chill.Proxy.Json.{Chunk, as_map}
use vllm_chill.Proxy.Writer.{
  Env, Writer, note_native, note_content, store_chunk, observe, observe_if, chunk_of, payload_of,
  scan_lines, send, send_all, send_anyway, has_items, tool_calls_of, content_of,
}
use vllm_chill.Proxy.Json.{Items, nil, cons, obj}
use vllm_chill.Proxy.Writer.Dedupe.{
  dedupe_lines, check_line, check_payload, check_calls, call_info, with_start, with_args, calls_in,
  emit, is_cons,
}

-- Native tool calls and XML mode exclude each other, and at most one chunk is kept.
pub record IsCoherent (w : Writer) : Type 0 where
  pub native_excludes_xml : w.tool_calls_detected ≡ true → w.xml_mode ≡ false
  pub one_chunk : length w.chunk_buffer ≤ 1

pub note_native-IsCoherent :
    (calls : Bool) (w : Writer) → IsCoherent w → IsCoherent (note_native calls w)
unfolding note_native
note_native-IsCoherent calls w h = ground arith

pub note_content-IsCoherent :
    (now : ℕ) (text : Bytes) (w : Writer) → IsCoherent w → IsCoherent (note_content now text w)
unfolding note_content
note_content-IsCoherent now text w h = ground arith

pub store_chunk-IsCoherent : (c : Chunk) (w : Writer) → IsCoherent w → IsCoherent (store_chunk c w)
unfolding store_chunk
store_chunk-IsCoherent c w h = ground arith

pub observe-IsCoherent :
    (now : ℕ) (c : Chunk) (w : Writer) → IsCoherent w → IsCoherent (observe now c w)
observe-IsCoherent now c w h =
    unfold observe in
    store_chunk-IsCoherent c _ (
      note_content-IsCoherent now (content_of c) _
        (note_native-IsCoherent (has_items (tool_calls_of c)) w h))

-- native tool calls, once seen, are not forgotten
pub observe-native :
    (now : ℕ) (c : Chunk) (w : Writer)
    → w.tool_calls_detected ≡ true
    → (observe now c w).tool_calls_detected ≡ true
unfolding observe note_native note_content store_chunk
observe-native now c w h = ground arith

pub observe-sent : (now : ℕ) (c : Chunk) (w : Writer) → (observe now c w).sent ≡ w.sent
unfolding observe note_native note_content store_chunk
observe-sent now c w = ground arith

-- The modes are the same and nothing more was sent.
pub record SameModes (w w' : Writer) : Type 0 where
  pub native : w'.tool_calls_detected ≡ w.tool_calls_detected
  pub xml : w'.xml_mode ≡ w.xml_mode
  pub chunks : w'.chunk_buffer ≡ w.chunk_buffer
  pub sent : w'.sent ≡ w.sent

module _ (env : Env) where
  pub check_calls-SameModes : (xs : Items) (w : Writer) → SameModes w (check_calls env xs w).1
  unfolding check_calls
  check_calls-SameModes nil w = ground arith
  check_calls-SameModes (cons (obj m) xs) w =
      let i = call_info env (some m) in
      ground (arith, check_calls-SameModes xs (with_args i (with_start i w)))
  check_calls-SameModes (cons _ xs) w = check_calls-SameModes xs w

  pub check_payload-SameModes : (s : Bytes) (w : Writer) → SameModes w (check_payload env s w).1
  unfolding check_payload
  check_payload-SameModes s w = ground (
    arith,
    check_calls-SameModes (calls_in (as_map (env.unmarshal s)))
        (record w { seen_chunks = env.hash s ∷ w.seen_chunks }),
  )

  pub check_line-SameModes :
      (l : Bytes) (p : Option Bytes) (b : Bool) (w : Writer)
      → SameModes w (check_line env l p b w).1
  unfolding check_line
  check_line-SameModes l none b w = ground arith
  check_line-SameModes l (some s) b w = ground (arith, check_payload-SameModes s w)

  pub dedupe_lines-SameModes :
      (ls : List Bytes) (out : Bytes) (w : Writer) → SameModes w (dedupe_lines env ls out w).1
  unfolding dedupe_lines
  dedupe_lines-SameModes [] out w = ground arith
  dedupe_lines-SameModes (l ∷ ls) out w =
      let (keep, w') = check_line env l (payload_of l) (is_cons out) w in
      ground (
        arith,
        check_line-SameModes l (payload_of l) (is_cons out) w,
        dedupe_lines-SameModes ls (emit keep l out) w',
      )

  pub scan_lines-IsCoherent :
      (now : ℕ) (ls : List Bytes) (done : Bool) (w : Writer)
      → IsCoherent w
      → IsCoherent (scan_lines env now ls done w).0
  unfolding scan_lines
  scan_lines-IsCoherent now [] done w h = h
  scan_lines-IsCoherent now (l ∷ ls) done w h =
      scan_lines-IsCoherent now ls _ _ (step (chunk_of env (payload_of l)))
    where
      step : (c : Option Chunk) → IsCoherent (observe_if now c w)
      step none = h
      step (some c) = observe-IsCoherent now c w h

  pub scan_lines-native :
      (now : ℕ) (ls : List Bytes) (done : Bool) (w : Writer)
      → w.tool_calls_detected ≡ true
      → (scan_lines env now ls done w).0.tool_calls_detected ≡ true
  unfolding scan_lines
  scan_lines-native now [] done w h = h
  scan_lines-native now (l ∷ ls) done w h =
      scan_lines-native now ls _ _ (step (chunk_of env (payload_of l)))
    where
      step : (c : Option Chunk) → (observe_if now c w).tool_calls_detected ≡ true
      step none = h
      step (some c) = observe-native now c w h

  pub scan_lines-sent :
      (now : ℕ) (ls : List Bytes) (done : Bool) (w : Writer)
      → (scan_lines env now ls done w).0.sent ≡ w.sent
  unfolding scan_lines
  scan_lines-sent now [] done w = refl
  scan_lines-sent now (l ∷ ls) done w =
      scan_lines-sent now ls _ _ ∙ step (chunk_of env (payload_of l))
    where
      step : (c : Option Chunk) → (observe_if now c w).sent ≡ w.sent
      step none = refl
      step (some c) = observe-sent now c w

  pub send_all-IsCoherent :
      (ps : List Bytes) (w : Writer) → IsCoherent w → IsCoherent (send_all env ps w).1
  unfolding send_all
  send_all-IsCoherent [] w h = h
  send_all-IsCoherent (p ∷ ps) w h = ground (
    arith,
    send_all-IsCoherent ps (send env p w).1
        (record { native_excludes_xml = h.native_excludes_xml; one_chunk = h.one_chunk }),
  )

  pub send_all-native :
      (ps : List Bytes) (w : Writer)
      → (send_all env ps w).1.tool_calls_detected ≡ w.tool_calls_detected
  unfolding send_all
  send_all-native [] w = refl
  send_all-native (p ∷ ps) w = ground (arith, send_all-native ps (send env p w).1)

  pub send_anyway-native :
      (ps : List Bytes) (w : Writer)
      → (send_anyway env ps w).tool_calls_detected ≡ w.tool_calls_detected
  unfolding send_anyway send
  send_anyway-native [] w = refl
  send_anyway-native (p ∷ ps) w = send_anyway-native ps (send env p w).1
