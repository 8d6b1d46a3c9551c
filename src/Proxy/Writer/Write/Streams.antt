-- ===== src/Proxy/Writer/Write/Streams.antt =====
-- Whole streams that are passed on to the client.
use vllm_chill.Prelude.{
  ℕ, Bytes, codes, index, contains, split_on, Bool, false, Option, none, some, List, [], ◌∷◌, ◌++◌,
  length, All, All-append, ◌≡◌, ◌≢◌, refl, sym, arith, append_assoc, append-nil, map,
}
use vllm_chill.Proxy.Json.{Chunk}
use vllm_chill.Proxy.Writer.{
  Env, Writer, looks_like_xml, note_native, note_content, store_chunk, observe, observe_if,
  chunk_of, payload_of, scan_lines, send, forward, has_items, tool_calls_of, content_of,
}
use vllm_chill.Proxy.Writer.Dedupe.{newline}
use vllm_chill.Proxy.Writer.Write.{write, write_each, received, react}
use vllm_chill.Proxy.Writer.Write.Keeps.{scan_lines-sent}

-- No byte of the text is '<'.
abbrev pub LacksTag : Bytes → Type 0
LacksTag = All (λ c. c ≢ b'<')

index-LacksTag : (s p : Bytes) → LacksTag s → index s (b'<' ∷ p) ≡ none
unfolding index
index-LacksTag [] p h = refl
index-LacksTag (c ∷ s) p (h, hs) = ground (arith, index-LacksTag s p hs)

contains-LacksTag : (s p : Bytes) → LacksTag s → contains s (b'<' ∷ p) ≡ false
unfolding contains
contains-LacksTag s p h = ground (arith, index-LacksTag s p h)

looks_like_xml-LacksTag : (s : Bytes) → LacksTag s → looks_like_xml s ≡ false
unfolding looks_like_xml
looks_like_xml-LacksTag s h = rw (
  contains-LacksTag s (codes "function=") h,
  contains-LacksTag s (codes "tool_call") h,
  contains-LacksTag s (codes "function_call") h,
  contains-LacksTag s (codes "function") h,
)

-- A chunk with no tool calls and no '<' in its text.
abbrev pub IsPlainChunk : Option Chunk → Type 0
IsPlainChunk none = Unit
IsPlainChunk (some c) = (has_items (tool_calls_of c) ≡ false) × LacksTag (content_of c)

-- The writer has not seen native tool calls or a '<' in the text, and is not in XML mode.
pub record IsPlain (w : Writer) : Type 0 where
  pub native : w.tool_calls_detected ≡ false
  pub xml : w.xml_mode ≡ false
  pub text : LacksTag w.accumulated

observe-IsPlain :
    (now : ℕ) (o : Option Chunk) (w : Writer)
    → IsPlainChunk o
    → IsPlain w
    → IsPlain (observe_if now o w)
unfolding observe note_native note_content store_chunk
observe-IsPlain now none w p h = h
observe-IsPlain now (some c) w (calls, text) h =
    let both = All-append (λ c. c ≢ b'<') w.accumulated (content_of c) h.text text in
    observe_parts (looks_like_xml-LacksTag (w.accumulated ++ content_of c) both) both
  where
    observe_parts :
        looks_like_xml (w.accumulated ++ content_of c) ≡ false
        → LacksTag (w.accumulated ++ content_of c)
        → IsPlain (observe now c w)
    observe_parts quiet both = ground arith

module _ (env : Env) where
  -- every chunk among the lines is plain
  abbrev pub ArePlain : List Bytes → Type 0
  ArePlain = All (λ l. IsPlainChunk (chunk_of env (payload_of l)))

  pub scan_lines-IsPlain :
      (now : ℕ) (ls : List Bytes) (done : Bool) (w : Writer)
      → ArePlain ls
      → IsPlain w
      → IsPlain (scan_lines env now ls done w).0
  unfolding scan_lines
  scan_lines-IsPlain now [] done w p h = h
  scan_lines-IsPlain now (l ∷ ls) done w (p, ps) h =
      scan_lines-IsPlain now ls _ _ ps (observe-IsPlain now (chunk_of env (payload_of l)) w p h)

  pub write-IsPlain :
      (now : ℕ) (b : Bytes) (w : Writer)
      → ArePlain (split_on newline b)
      → IsPlain w
      → IsPlain (write env now b w).1
        × ((write env now b w).1.sent ≡ w.sent ++ b ∷ [])
        × ((write env now b w).0 ≡ (length b, (env.accept w.sent b).1))
  unfolding write react forward send
  write-IsPlain now b w p h =
      let h' : IsPlain (received b w) = record { native = h.native; xml = h.xml; text = h.text } in
      ground (
        arith,
        scan_lines-IsPlain now (split_on newline b) false (received b w) p h',
        scan_lines-sent env now (split_on newline b) false (received b w),
      )

  -- every write of a stream is plain
  abbrev pub IsPlainStream : List (ℕ × Bytes) → Type 0
  IsPlainStream = All (λ (now, b). ArePlain (split_on newline b))

  -- A stream in which no chunk has tool calls and no text has a '<' reaches the client write by
  -- write, byte for byte, whatever the client's writer answers; the writer stays as plain as it was.
  pub write_each-IsPlain :
      (bs : List (ℕ × Bytes)) (w : Writer)
      → IsPlainStream bs
      → IsPlain w
      → ((write_each env bs w).sent ≡ w.sent ++ map (λ t. t.1) bs) × IsPlain (write_each env bs w)
  unfolding write_each
  write_each-IsPlain [] w p h = (sym (append-nil w.sent), h)
  write_each-IsPlain ((now, b) ∷ bs) w (p, ps) h =
      let (h', sent, _) = write-IsPlain now b w p h in
      let (rest, plain) = write_each-IsPlain bs (write env now b w).1 ps h' in
      (simp (rest, sent, append_assoc), plain)
