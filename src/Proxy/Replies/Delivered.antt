-- ===== src/Proxy/Replies/Delivered.antt =====
-- The error replies pass the response writer unchanged.
use vllm_chill.Prelude.{
  ℕ, Bool, Bytes, codes, has_prefix, split_on, Option, none, some, List, [], ◌∷◌, ◌++◌, ◌≡◌, refl,
  arith, false, ap, ◌∙◌,
}
use vllm_chill.Parser.Cut.Skips.{Lacks}
use vllm_chill.Proxy.Json.{Chunk, Fields}
use vllm_chill.Proxy.Writer.{
  Env, Writer, payload_of, chunk_of, write_header, observe, observe_if, note_native, note_content,
  store_chunk, scan_lines, forward, send,
}
use vllm_chill.Proxy.Writer.Dedupe.{newline}
use vllm_chill.Proxy.Writer.Write.{write, react, received}
use vllm_chill.Proxy.Writer.Write.Streams.{IsPlain, ArePlain, scan_lines-IsPlain, write-IsPlain}
use vllm_chill.Proxy.Handler.{
  Reply, forwarded, available_models, list_failed, switch_failed, loading, starting, crashed,
  status_of,
}
use vllm_chill.Proxy.Replies.{error_body, send_json, send_reply}

split_line : (s : Bytes) → Lacks newline s → split_on newline (s ++ codes "\n") ≡ s ∷ [] ∷ []
unfolding split_on
split_line [] h = refl
split_line (c ∷ s) (hc, h) = rw (split_line s h, hc) refl

-- What package encoding/json documents of Marshal for a map: one line that begins with a brace.
pub record IsObject (s : Bytes) : Type 0 where
  pub rest : Bytes
  pub braced : s ≡ b'{' ∷ rest
  pub line : Lacks newline s

observe-headers :
    (now : ℕ) (c : Chunk) (w : Writer) → (observe now c w).headers_sent ≡ w.headers_sent
unfolding observe note_native note_content store_chunk
observe-headers now c w = ground arith

observe_if-headers :
    (now : ℕ) (c : Option Chunk) (w : Writer) → (observe_if now c w).headers_sent ≡ w.headers_sent
observe_if-headers now none w = refl
observe_if-headers now (some c) w = observe-headers now c w

module _ (env : Env) where
  object-ArePlain : (s : Bytes) → IsObject s → ArePlain env (split_on newline (s ++ codes "\n"))
  unfolding payload_of has_prefix chunk_of
  object-ArePlain s h = rw (split_line s h.line) (rw h.braced tt, (tt, tt))

  scan_lines-headers :
      (now : ℕ) (ls : List Bytes) (done : Bool) (w : Writer)
      → (scan_lines env now ls done w).0.headers_sent ≡ w.headers_sent
  unfolding scan_lines
  scan_lines-headers now [] done w = refl
  scan_lines-headers now (l ∷ ls) done w =
      scan_lines-headers now ls _ _ ∙ observe_if-headers now (chunk_of env (payload_of l)) w

  write-headers :
      (now : ℕ) (b : Bytes) (w : Writer)
      → ArePlain env (split_on newline b)
      → IsPlain w
      → (write env now b w).1.headers_sent ≡ w.headers_sent
  unfolding write react forward send
  write-headers now b w p h =
      let h' : IsPlain (received b w) = record { native = h.native; xml = h.xml; text = h.text } in
      ground (
        arith,
        scan_lines-IsPlain env now (split_on newline b) false (received b w) p h',
        scan_lines-headers now (split_on newline b) false (received b w),
      )

  send_json-IsPlain :
      (now status : ℕ) (fields : Fields) (w : Writer)
      → IsObject (env.marshal (some fields))
      → IsPlain w
      → let w' = send_json env now status (some fields) w in
        IsPlain w'
        × (w'.sent ≡ w.sent ++ (env.marshal (some fields) ++ codes "\n") ∷ [])
        × (w'.headers_sent ≡ w.headers_sent ++ status ∷ [])
  unfolding send_json write_header
  send_json-IsPlain now status fields w h plain =
      let body = env.marshal (some fields) ++ codes "\n" in
      let lines = object-ArePlain (env.marshal (some fields)) h in
      let w' = write_header status w in
      let plain' : IsPlain w' = record {
        native = plain.native;
        xml = plain.xml;
        text = plain.text;
      } in
      let (kept, sent, _) = write-IsPlain env now body w' lines plain' in
      (kept, sent, write-headers now body w' lines plain')

  send_reply-eq :
      (now : ℕ) (reply : Reply) (fields : Fields) (w : Writer)
      → error_body now reply ≡ some fields
      → send_reply env now reply w ≡ send_json env now (status_of reply) (some fields) w
  unfolding send_reply status_of
  send_reply-eq now (available_models wanted names) fields w e =
      ap (λ o. send_json env now 404 o w) e
  send_reply-eq now (list_failed bad) fields w e = ap (λ o. send_json env now 500 o w) e
  send_reply-eq now (switch_failed model bad) fields w e = ap (λ o. send_json env now 503 o w) e
  send_reply-eq now starting fields w e = ap (λ o. send_json env now 503 o w) e
  send_reply-eq now (loading stream model) fields w e = unfold error_body in cc
  send_reply-eq now (forwarded n) fields w e = unfold error_body in cc
  send_reply-eq now crashed fields w e = unfold error_body in cc

  -- An error reply of the proxy reaches the client: the header with the status of the reply, then its
  -- object and a newline in one write, unchanged, and the writer is ready for more. The writer has seen
  -- no tool call before, and json.Marshal writes the object as one line that begins with a brace.
  pub error_reply_is_sent :
      (now : ℕ) (reply : Reply) (fields : Fields) (w : Writer)
      → error_body now reply ≡ some fields
      → IsObject (env.marshal (some fields))
      → IsPlain w
      → let w' = send_reply env now reply w in
        IsPlain w'
        × (w'.sent ≡ w.sent ++ (env.marshal (some fields) ++ codes "\n") ∷ [])
        × (w'.headers_sent ≡ w.headers_sent ++ status_of reply ∷ [])
  error_reply_is_sent now reply fields w e h plain =
      rw (send_reply-eq now reply fields w e)
        (send_json-IsPlain now (status_of reply) fields w h plain)
