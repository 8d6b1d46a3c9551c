-- ===== src/Proxy/Loading.antt =====
-- sendLoadingMessage of pkg/proxy/autoscaler.go, which writes through the response writer.
pub mod Delivered
use vllm_chill.Prelude.{ℕ, Bytes, codes, to_decimal, Bool, true, false, some, List, [], ◌∷◌, ◌++◌}
use vllm_chill.Proxy.Json.{Json, null, num, str, arr, obj, nil, cons, Fields, end, field}
use vllm_chill.Proxy.Writer.{Env, Writer, write_header}
use vllm_chill.Proxy.Writer.Write.{write, write_each}

unfoldable pub loading_text : Bytes → Bytes
loading_text model = codes "Model '" ++ (model ++ codes "' is loading, please wait...")

abbrev one_choice : Fields → Json
one_choice choice = arr (cons (obj choice) nil)

abbrev answer_fields : Bytes → ℕ → Bytes → Fields → Fields → Fields
answer_fields kind created model choice rest = field (codes "id") (str (codes "chatcmpl-loading")) (
    field (codes "object") (str kind) (
      field (codes "created") (num (to_decimal created))
        (field (codes "model") (str model) (field (codes "choices") (one_choice choice) rest))))

abbrev assistant : Bytes → Fields
assistant text =
    field (codes "role") (str (codes "assistant")) (field (codes "content") (str text) end)

-- the chunk with the message
unfoldable pub loading_chunk : ℕ → Bytes → Fields
unfolding to_decimal
loading_chunk created model =
    answer_fields (codes "chat.completion.chunk") created model
      (field (codes "index") (num (codes "0")) (
        field (codes "delta") (obj (assistant (loading_text model)))
          (field (codes "finish_reason") null end)))
      end

-- the chunk that ends the answer
unfoldable pub finish_chunk : ℕ → Bytes → Fields
unfolding to_decimal
finish_chunk created model =
    answer_fields (codes "chat.completion.chunk") created model
      (field (codes "index") (num (codes "0"))
        (field (codes "delta") (obj end) (field (codes "finish_reason") (str (codes "stop")) end)))
      end

-- the answer to a request that asks for no stream
unfoldable pub loading_answer : ℕ → Bytes → Fields
unfolding to_decimal
loading_answer created model =
    answer_fields (codes "chat.completion") created model
      (field (codes "index") (num (codes "0")) (
        field (codes "message") (obj (assistant (loading_text model)))
          (field (codes "finish_reason") (str (codes "stop")) end)))
      (field (codes "usage")
        (obj (
          field (codes "prompt_tokens") (num (codes "0")) (
            field (codes "completion_tokens") (num (codes "0"))
              (field (codes "total_tokens") (num (codes "0")) end))))
        end)

module _ (env : Env) where
  -- fmt.Fprintf(w, "data: %s\n\n", data)
  abbrev pub event_of : Fields → Bytes
  event_of chunk = codes "data: " ++ (env.marshal (some chunk) ++ codes "\n\n")

  -- what is written for a stream, with the time of each write
  unfoldable pub loading_events : ℕ → Bytes → List (ℕ × Bytes)
  unfolding loading_chunk finish_chunk
  loading_events now model =
      (now, event_of (loading_chunk now model))
      ∷ (now, event_of (finish_chunk now model))
      ∷ (now, codes "data: [DONE]\n\n")
      ∷ []

  -- sendLoadingMessage, for a request that asks for a stream or not. The clock stands still meanwhile,
  -- and errors of the writes are ignored.
  unfoldable pub send_loading_message : Bool → ℕ → Bytes → Writer → Writer
  unfolding write_header
  send_loading_message true now model w =
      write_each env (loading_events now model) (write_header 200 w)
  send_loading_message false now model w =
      (write env now (env.marshal (some (loading_answer now model)) ++ codes "\n")
        (write_header 200 w)).1
