-- ===== src/Examples/Replies.antt =====
-- An error reply at the client.
use vllm_chill.Prelude.{codes, [], ◌∷◌, ◌++◌, ◌≡◌, refl}
use vllm_chill.Proxy.Writer.{Env}
use vllm_chill.Proxy.Writer.Write.Streams.{IsPlain}
use vllm_chill.Proxy.Handler.{Reply, available_models, status_of}
use vllm_chill.Proxy.Replies.{send_reply, error_body, available_models_body}
use vllm_chill.Proxy.Replies.Delivered.{error_reply_is_sent}
use vllm_chill.Examples.Streams.{client, fresh, fresh-IsPlain}

-- every map is written as the same object
abbrev one_object : Env
one_object = record (client []) { marshal = λ c. codes "{}" }

-- The name of the model that is asked for looks like a tool call.
abbrev no_such_model : Reply
no_such_model = available_models (codes "<tool_call>") (codes "a" ∷ codes "b" ∷ [])

error_reply_is_sent_example :
    let w = send_reply one_object 7 no_such_model fresh in
    IsPlain w × (w.sent ≡ (codes "{}" ++ codes "\n") ∷ []) × (w.headers_sent ≡ 404 ∷ [])
unfolding error_body status_of
error_reply_is_sent_example =
    error_reply_is_sent one_object 7 no_such_model
      (available_models_body 7 (codes "<tool_call>") (codes "a" ∷ codes "b" ∷ [])) fresh refl
      (record { rest = codes "}"; braced = refl; line = (refl, (refl, tt)) }) fresh-IsPlain
