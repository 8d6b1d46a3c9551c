-- ===== src/Proxy/Replies.antt =====
-- What the client gets of the replies that pkg/proxy/autoscaler.go makes itself: the header, and the
-- object that json.NewEncoder writes through the response writer.
pub mod Delivered
use vllm_chill.Prelude.{
  ℕ, Bytes, codes, to_decimal, join_with, Bool, Option, none, some, List, [], ◌∷◌, ◌++◌, Error,
}
use vllm_chill.Proxy.Json.{Json, num, str, arr, obj, Items, nil, cons, Fields, end, field}
use vllm_chill.Proxy.Writer.{Env, Writer, write_header}
use vllm_chill.Proxy.Writer.Write.{write}
use vllm_chill.Proxy.Handler.{
  Reply, forwarded, available_models, list_failed, switch_failed, loading, starting, crashed,
}
use vllm_chill.Proxy.Loading.{send_loading_message}

-- the object with the field "error"
abbrev error_object : Bytes → Bytes → Bytes → Fields → Fields → Fields
error_object message kind code more rest =
    field (codes "error")
      (obj (
        field (codes "message") (str message)
          (field (codes "type") (str kind) (field (codes "code") (str code) more))))
      rest

-- an entry of modelList
unfoldable pub model_entry : ℕ → Bytes → Json
unfolding to_decimal
model_entry created name = obj (
    field (codes "id") (str name) (
      field (codes "object") (str (codes "model")) (
        field (codes "created") (num (to_decimal created))
          (field (codes "owned_by") (str (codes "vllm-chill")) end))))

unfoldable pub model_list : ℕ → List Bytes → Items
unfolding model_entry
model_list created [] = nil
model_list created (name ∷ names) = cons (model_entry created name) (model_list created names)

-- the message for a model that there is not; %v of the names
unfoldable pub not_found_message : Bytes → List Bytes → Bytes
unfolding join_with
not_found_message wanted names =
    codes "Model '"
    ++ (wanted
        ++ (codes "' not found. Available models: [" ++ (join_with (codes " ") names ++ codes "]")))

-- the object of returnAvailableModels
unfoldable pub available_models_body : ℕ → Bytes → List Bytes → Fields
unfolding model_list not_found_message
available_models_body created wanted names =
    error_object (not_found_message wanted names) (codes "invalid_request_error")
      (codes "model_not_found") (field (codes "param") (str (codes "model")) end)
      (field (codes "available_models")
        (obj (
          field (codes "object") (str (codes "list"))
            (field (codes "data") (arr (model_list created names)) end)))
        end)

-- its object where the models cannot be listed
unfoldable pub list_failed_body : Fields
list_failed_body =
    error_object (codes "Failed to retrieve available models") (codes "internal_error")
      (codes "model_list_error") end end

-- the object of proxyHandler where the switch failed
unfoldable pub switch_failed_body : Bytes → Error → Fields
switch_failed_body model e =
    error_object (codes "Failed to switch to model " ++ (model ++ (codes ": " ++ e.message)))
      (codes "model_switch_error") (codes "model_unavailable") end end

-- its object where the pod did not come up
unfoldable pub starting_body : Fields
starting_body =
    error_object (codes "Service is starting up. Please wait and retry in a few moments.")
      (codes "service_unavailable") (codes "scaling_up") end end

-- the object of a reply, of those that have the field "error"
unfoldable pub error_body : ℕ → Reply → Option Fields
unfolding available_models_body list_failed_body switch_failed_body starting_body
error_body created (available_models wanted names) =
    some (available_models_body created wanted names)
error_body created (list_failed e) = some list_failed_body
error_body created (switch_failed model e) = some (switch_failed_body model e)
error_body created starting = some starting_body
error_body created (forwarded n) = none
error_body created (loading stream model) = none
error_body created crashed = none

module _ (env : Env) where
  -- w.WriteHeader(status) and json.NewEncoder(w).Encode(response), which ends with a newline
  unfoldable pub send_json : ℕ → ℕ → Option Fields → Writer → Writer
  unfolding write_header
  send_json now status none w = w
  send_json now status (some fields) w =
      (write env now (env.marshal (some fields) ++ codes "\n") (write_header status w)).1

  -- the reply of proxyHandler, where it is not the backend's
  unfoldable pub send_reply : ℕ → Reply → Writer → Writer
  unfolding send_json error_body
  send_reply now (available_models wanted names) w =
      send_json now 404 (error_body now (available_models wanted names)) w
  send_reply now (list_failed e) w = send_json now 500 (error_body now (list_failed e)) w
  send_reply now (switch_failed model e) w =
      send_json now 503 (error_body now (switch_failed model e)) w
  send_reply now starting w = send_json now 503 (error_body now starting) w
  send_reply now (loading stream model) w = send_loading_message env stream now model w
  send_reply now (forwarded n) w = w
  send_reply now crashed w = w
