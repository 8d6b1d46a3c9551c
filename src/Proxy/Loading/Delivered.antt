-- ===== src/Proxy/Loading/Delivered.antt =====
-- The loading message of sendLoadingMessage passes the response writer unchanged.
use vllm_chill.Prelude.{
  ℕ, Bytes, codes, same, has_prefix, trim_prefix, split_on, true, not, ◌==◌, some, [], ◌∷◌, ◌++◌,
  all, All-append, map, arith, ◌≡◌, ◌≢◌, refl, inl, inr, Bool-cases,
}
use vllm_chill.Parser.Cut.Skips.{Lacks}
use vllm_chill.Proxy.Json.{
  obj, Fields, find_field, get_field, as_map, as_object, as_items, as_text, first_item,
}
use vllm_chill.Proxy.Writer.{
  Env, Writer, payload_of, chunk_of, write_header, delta_of, tool_calls_of, content_of,
}
use vllm_chill.Proxy.Writer.Dedupe.{newline}
use vllm_chill.Proxy.Writer.Write.Streams.{
  LacksTag, IsPlainChunk, IsPlain, ArePlain, IsPlainStream, write_each-IsPlain,
}
use vllm_chill.Proxy.Loading.{
  loading_text, loading_chunk, finish_chunk, event_of, loading_events, send_loading_message,
}

all-LacksTag : (s : Bytes) → all (λ c. not (c == b'<')) s ≡ true → LacksTag s
all-LacksTag [] h = tt
all-LacksTag (c ∷ s) h = ((λ e. ground (arith, h, e)), all-LacksTag s (ground (arith, h)))

loading_text-LacksTag : (model : Bytes) → LacksTag model → LacksTag (loading_text model)
unfolding loading_text
loading_text-LacksTag model h =
    let quote = codes "' is loading, please wait..." in
    All-append (λ c. c ≢ b'<') (codes "Model '") (model ++ quote)
      (all-LacksTag (codes "Model '") refl)
      (All-append (λ c. c ≢ b'<') model quote h (all-LacksTag quote refl))

split_on-Lacks :
    (s : Bytes) → Lacks newline s → split_on newline (s ++ codes "\n\n") ≡ s ∷ [] ∷ [] ∷ []
unfolding split_on
split_on-Lacks [] h = refl
split_on-Lacks (c ∷ s) (hc, h) = rw (split_on-Lacks s h, hc) refl

-- What package encoding/json documents, for one chunk: Unmarshal reads what Marshal writes, and that is
-- one line.
abbrev pub IsReadBack : Env → Fields → Type 0
IsReadBack env chunk =
    (env.unmarshal (env.marshal (some chunk)) ≡ some (obj chunk))
    × Lacks newline (env.marshal (some chunk))

loading_chunk-IsPlainChunk :
    (now : ℕ) (model : Bytes)
    → LacksTag model
    → IsPlainChunk (some (some (loading_chunk now model)))
unfolding loading_chunk tool_calls_of content_of delta_of get_field find_field as_object as_items
    as_text first_item same
loading_chunk-IsPlainChunk now model h = (refl, loading_text-LacksTag model h)

finish_chunk-IsPlainChunk :
    (now : ℕ) (model : Bytes) → IsPlainChunk (some (some (finish_chunk now model)))
unfolding finish_chunk tool_calls_of content_of delta_of get_field find_field as_object as_items
    as_text first_item same
finish_chunk-IsPlainChunk now model = (refl, tt)

module _ (env : Env) where
  chunk_of-marshal :
      (chunk : Fields)
      → IsReadBack env chunk
      → IsPlainChunk (some (some chunk))
      → IsPlainChunk (chunk_of env (some (env.marshal (some chunk))))
  unfolding chunk_of as_map
  chunk_of-marshal chunk (read, line) plain =
      elim (Bool-cases (same (env.marshal (some chunk)) (codes "[DONE]"))) [
        | inl e ↦ rw e tt
        | inr e ↦ rw (e, read) plain
      ]

  event_of-ArePlain :
      (chunk : Fields)
      → IsReadBack env chunk
      → IsPlainChunk (some (some chunk))
      → ArePlain env (split_on newline (event_of env chunk))
  unfolding split_on payload_of has_prefix trim_prefix chunk_of
  event_of-ArePlain chunk read plain =
      rw (split_on-Lacks (env.marshal (some chunk)) read.1)
        (chunk_of-marshal chunk read plain, (tt, (tt, tt)))

  done-ArePlain : ArePlain env (split_on newline (codes "data: [DONE]\n\n"))
  unfolding split_on payload_of has_prefix trim_prefix chunk_of same
  done-ArePlain = (tt, (tt, (tt, tt)))

  loading_events-IsPlainStream :
      (now : ℕ) (model : Bytes)
      → LacksTag model
      → IsReadBack env (loading_chunk now model)
      → IsReadBack env (finish_chunk now model)
      → IsPlainStream env (loading_events env now model)
  unfolding loading_events
  loading_events-IsPlainStream now model h loading finish = (
    event_of-ArePlain (loading_chunk now model) loading (loading_chunk-IsPlainChunk now model h),
    (
      event_of-ArePlain (finish_chunk now model) finish (finish_chunk-IsPlainChunk now model),
      (done-ArePlain, tt),
    ),
  )

  -- A client that asks for a stream gets the loading message: the three events reach it unchanged,
  -- though they pass the writer that looks for tool calls in them. The model's name holds no `<`, the
  -- writer has not seen one before, and JSON is read back as it is written.
  pub loading_is_delivered :
      (now : ℕ) (model : Bytes) (w : Writer)
      → LacksTag model
      → IsReadBack env (loading_chunk now model)
      → IsReadBack env (finish_chunk now model)
      → IsPlain w
      → ((send_loading_message env true now model w).sent
          ≡ w.sent ++ map (λ t. t.1) (loading_events env now model))
        × IsPlain (send_loading_message env true now model w)
  unfolding send_loading_message write_header
  loading_is_delivered now model w h loading finish plain =
      write_each-IsPlain env (loading_events env now model) (write_header 200 w)
        (loading_events-IsPlainStream now model h loading finish)
        (record { native = plain.native; xml = plain.xml; text = plain.text })
