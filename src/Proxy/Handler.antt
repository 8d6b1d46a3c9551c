-- ===== src/Proxy/Handler.antt =====
-- The request path of pkg/proxy/autoscaler.go: proxyHandler and what it calls, up to the point where
-- the request is given to the reverse proxy or answered by the program itself.
pub mod Routing
pub mod Overtaken
pub mod Refusal
pub mod Catalog
use vllm_chill.Prelude.{
  ℕ, Bytes, codes, same, has_prefix, Bool, true, false, not, ◌&&◌, Option, none, some, List, [],
  ◌∷◌, ◌++◌, map, Error, wrap, Result, ok, err, panic, if◌then◌else◌, format_int,
}
use vllm_chill.Kubernetes.Config.{Config}
use vllm_chill.Kubernetes.Models.{ModelConfig, is_empty}
use vllm_chill.Kubernetes.Crd.{VllmModel, get_model, list_models}
use vllm_chill.Proxy.Json.{Json, bool, Chunk, get_field, as_map, as_text}
use vllm_chill.Proxy.Scaler.{
  World, Scaler, Event, request, log_event, ensure_scaled_up, update_activity, switch_model,
}

pub record Request : Type 0 where
  pub method : Bytes
  pub path : Bytes
  -- `none` if the body is nil; `some none` if reading it fails
  pub body : Option (Option Bytes)

-- ModelInfo
pub record ModelInfo : Type 0 where
  pub name : Bytes
  pub served_model_name : Bytes
  pub model_name : Bytes
  pub max_model_len : Bytes

unfoldable pub info_of : VllmModel → ModelInfo
unfolding format_int
info_of m = record {
  name = m.name;
  served_model_name = m.spec.served_model_name;
  model_name = m.spec.model_name;
  max_model_len = format_int m.spec.max_model_len;
}

abbrev pub infos_of : Result (List VllmModel) → Result (List ModelInfo)
infos_of (ok ms) = ok (map info_of ms)
infos_of (err e) = err e
infos_of panic = panic

-- getModelNames
unfoldable pub get_model_names : List ModelInfo → List Bytes
get_model_names [] = []
get_model_names (m ∷ ms) = m.name ∷ get_model_names ms

-- What a request comes to.
pub data Reply : Type 0 where
  -- the reverse proxy got the request; its status
  forwarded : ℕ → Reply
  -- 404 with the models that there are, for a model that there is not
  available_models : Bytes → List Bytes → Reply
  -- 500, the models could not be listed
  list_failed : Error → Reply
  -- 503, the switch to a model failed
  switch_failed : Bytes → Error → Reply
  -- 200, a chat answer that the model is loading; as a stream or not
  loading : Bool → Bytes → Reply
  -- 503, the service is starting up
  starting : Reply
  -- the handler panicked
  crashed : Reply

-- The status that the response writer has when the deferred calls run: 200 until a header is written,
-- so also after a panic.
unfoldable pub status_of : Reply → ℕ
status_of (forwarded n) = n
status_of (available_models m names) = 404
status_of (list_failed e) = 500
status_of (switch_failed m e) = 503
status_of (loading stream m) = 200
status_of starting = 503
status_of crashed = 200

-- The outcome of handleModelSwitch.
pub data Switched : Type 0 where
  in_place : Switched
  not_found : Bytes → Switched
  failed : Error → Switched
  broken : Switched

abbrev pub as_bool : Option Json → Bool
as_bool (some (bool b)) = b
as_bool _ = false

-- the body as a map, the nil map if it cannot be read or is none
abbrev pub map_or_nil : Option Chunk → Chunk
map_or_nil none = none
map_or_nil (some c) = c

-- json.Unmarshal into an interface, `none` for an error
abbrev pub Unmarshal : Type 0
Unmarshal = Bytes → Option Json

abbrev pub body_map : Unmarshal → Option (Option Bytes) → Chunk
body_map unmarshal none = none
body_map unmarshal (some none) = none
body_map unmarshal (some (some b)) = map_or_nil (as_map (unmarshal b))

-- extractModelFromRequest, for the requests that proxyHandler calls it for
unfoldable pub requested_model : Unmarshal → Request → Bytes
unfolding get_field as_map as_text has_prefix
requested_model unmarshal r =
    if has_prefix r.path (codes "/v1")
    then as_text (get_field (codes "model") (body_map unmarshal r.body))
    else []

-- the stream flag that sendLoadingMessage reads
unfoldable pub wants_stream : Unmarshal → Request → Bool
unfolding get_field as_map
wants_stream unmarshal r = as_bool (get_field (codes "stream") (body_map unmarshal r.body))

abbrev pub chat_path : Bytes
chat_path = codes "/v1/chat/completions"

module _ (world : World) (config : Config) where
  open world use {api}

  -- (*AutoScaler).ListModels
  unfoldable pub list_infos : Scaler world → Result (List ModelInfo) × Scaler world
  list_infos s =
      let (r, server) = list_models api s.server in (infos_of r, record s { server = server })

  abbrev pub catalog : Bytes → Result (List ModelInfo) → Reply
  catalog wanted (ok ms) = available_models wanted (get_model_names ms)
  catalog wanted (err e) = list_failed e
  catalog wanted panic = crashed

  -- returnAvailableModels
  unfoldable pub return_available_models : Bytes → Scaler world → Reply × Scaler world
  return_available_models wanted s = let (r, s') = list_infos s in (catalog wanted r, s')

  abbrev pub switched : Result (Unit {0}) → Switched
  switched (ok u) = in_place
  switched (err e) = failed (wrap (codes "failed to switch model") e)
  switched panic = broken

  -- handleModelSwitch, once GetModel has answered
  unfoldable pub switch_to : Bytes → Result ModelConfig → Scaler world → Switched × Scaler world
  switch_to wanted (ok m) s = let (r, s') = switch_model world config wanted s in (switched r, s')
  switch_to wanted (err e) s = (not_found wanted, s)
  switch_to wanted panic s = (broken, s)

  -- handleModelSwitch
  unfoldable pub handle_model_switch : Bytes → Scaler world → Switched × Scaler world
  unfolding same
  handle_model_switch wanted s =
      let (r, server) = get_model api wanted s.server in
      if same wanted s.active_model
      then (in_place, s)
      else switch_to wanted r (record s { server = server })

  module _ (unmarshal : Unmarshal) (upstream : Scaler world → ℕ) (r : Request) where
    -- the reply for the outcome of ensureScaledUp
    unfoldable pub serve : Bytes → Result (Unit {0}) × Scaler world → Reply × Scaler world
    serve wanted (ok u, s) = (forwarded (upstream s), s)
    serve wanted (err e, s) = (
      if same r.path chat_path && not (is_empty wanted)
          then loading (wants_stream unmarshal r) wanted
          else starting,
      s,
    )
    serve wanted (panic, s) = (crashed, s)

    module _ (others : Scaler world → Scaler world) (ticks : ℕ) where
      -- the reply for the outcome of the model switch
      unfoldable pub answer : Bytes → Switched × Scaler world → Reply × Scaler world
      answer wanted (in_place, s) = serve wanted (ensure_scaled_up world config others ticks s)
      answer wanted (not_found m, s) = return_available_models m s
      answer wanted (failed e, s) = (switch_failed wanted e, s)
      answer wanted (broken, s) = (crashed, s)

      abbrev pub switch_if_asked : Bytes → Scaler world → Switched × Scaler world
      switch_if_asked wanted s =
          let (o, s') = handle_model_switch wanted s in
          if is_empty wanted then (in_place, s) else (o, s')

      -- The part of proxyHandler between its deferred calls.
      unfoldable pub handle : Scaler world → Reply × Scaler world
      handle s =
          let wanted = requested_model unmarshal r in
          answer wanted (switch_if_asked wanted (update_activity world config s))

      -- proxyHandler. The deferred calls run last in, first out: RecordRequest is called while
      -- `requestSize` is still 0, and the size is assigned after that.
      unfoldable pub proxy_handler : Scaler world → Reply × Scaler world
      proxy_handler s =
          let (reply, s') = handle s in
          let request_size : ℕ = 0 in
          (
            reply,
            log_event world config (request r.method r.path (status_of reply) request_size) s',
          )
