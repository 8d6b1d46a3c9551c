-- ===== src/Proxy/Background/Interrupted.antt =====
-- A request that takes longer than the idle timeout.
use vllm_chill.Prelude.{
  ℕ, ◌-◌, Bytes, pos, less_int, Bool, true, false, none, Result, ok, err, panic, [], ◌∷◌, ◌≡◌, refl,
  ap, ◌∙◌, arith,
}
use vllm_chill.Kubernetes.Config.{Config as K8sConfig}
use vllm_chill.Kubernetes.Models.{ModelConfig, is_empty}
use vllm_chill.Kubernetes.Crd.{get_model}
use vllm_chill.Kubernetes.Manager.{pod_exists, delete_pod}
use vllm_chill.Proxy.Config.{Config, ParseDuration, k8s_config, get_idle_timeout}
use vllm_chill.Proxy.Scaler.{
  World, Scaler, manage_pod, ensure_scaled_up, update_activity, activate, switch_if, switch_model,
}
use vllm_chill.Proxy.Scaler.Kept.{IsApart, manage_pod-kept, ensure_scaled_up-kept}
use vllm_chill.Proxy.Scaler.Lifecycle.{gauge}
use vllm_chill.Proxy.Handler.{
  Request, Unmarshal, forwarded, Switched, in_place, not_found, failed, broken, requested_model,
  handle_model_switch, switch_to, switch_if_asked, serve, answer, handle, return_available_models,
  list_infos,
}
use vllm_chill.Proxy.Handler.Routing.{asked-idle}
use vllm_chill.Proxy.Background.{idle_check}
use vllm_chill.Proxy.Background.Effects.{idle_is_stopped}

module _ (world : World) (config : K8sConfig) where
  open world use {api, now}

  abbrev activity_of : Scaler world → ℕ
  activity_of s = s.last_activity

  activity_apart : IsApart world config activity_of
  activity_apart = record { server = λ v s. refl; events = λ es s. refl; flag = λ b s. refl }

  activate-activity :
      (id : Bytes) (r : Result (Unit {0}) × Scaler world)
      → (activate world config id r).1.last_activity ≡ r.1.last_activity
  activate-activity id (ok u, s) = refl
  activate-activity id (err e, s) = refl
  activate-activity id (panic, s) = refl

  switch_if-activity :
      (id : Bytes) (r : Result Bool) (s : Scaler world)
      → (switch_if world config id r s).1.last_activity ≡ s.last_activity
  unfolding switch_if
  switch_if-activity id (ok true) s =
      activate-activity id (manage_pod world config false s)
      ∙ manage_pod-kept world config activity_of activity_apart false s
  switch_if-activity id (ok false) s = refl
  switch_if-activity id (err e) s = refl
  switch_if-activity id panic s = refl

  switch_to-activity :
      (wanted : Bytes) (r : Result ModelConfig) (s : Scaler world)
      → (switch_to world config wanted r s).1.last_activity ≡ s.last_activity
  unfolding switch_to switch_model
  switch_to-activity wanted (ok m) s =
      let (r, server) = pod_exists api config s.server in
      switch_if-activity wanted r (record s { server = server })
  switch_to-activity wanted (err e) s = refl
  switch_to-activity wanted panic s = refl

  handle_model_switch-activity :
      (wanted : Bytes) (s : Scaler world)
      → (handle_model_switch world config wanted s).1.last_activity ≡ s.last_activity
  unfolding handle_model_switch
  handle_model_switch-activity wanted s =
      let (r, server) = get_model api wanted s.server in
      ground (arith, switch_to-activity wanted r (record s { server = server }))

  module _ (unmarshal : Unmarshal) (upstream : Scaler world → ℕ) (r : Request) where
    serve-activity :
        (wanted : Bytes) (o : Result (Unit {0}) × Scaler world)
        → (serve world config unmarshal upstream r wanted o).1.last_activity ≡ o.1.last_activity
    unfolding serve
    serve-activity wanted (ok u, s) = refl
    serve-activity wanted (err e, s) = refl
    serve-activity wanted (panic, s) = refl

    module _ (others : Scaler world → Scaler world) (ticks : ℕ) where
      asked-activity :
          (wanted : Bytes) (s : Scaler world)
          → (switch_if_asked world config unmarshal upstream r others ticks wanted
              s).1.last_activity
            ≡ s.last_activity
      unfolding is_empty
      asked-activity [] s = refl
      asked-activity (c ∷ cs) s = handle_model_switch-activity (c ∷ cs) s

      answer-activity :
          (wanted : Bytes) (o : Switched × Scaler world)
          → o.1.is_scaling_up ≡ false
          → (answer world config unmarshal upstream r others ticks wanted o).1.last_activity
            ≡ o.1.last_activity
      unfolding answer return_available_models list_infos
      answer-activity wanted (in_place, s) idle =
          serve-activity wanted (ensure_scaled_up world config others ticks s)
          ∙ ensure_scaled_up-kept world config activity_of activity_apart others ticks s idle
      answer-activity wanted (not_found m, s) idle = refl
      answer-activity wanted (failed e, s) idle = refl
      answer-activity wanted (broken, s) idle = refl

      -- The last activity is the arrival of the request.
      pub handle-activity :
          (s : Scaler world)
          → s.is_scaling_up ≡ false
          → (handle world config unmarshal upstream r others ticks s).1.last_activity ≡ now s.server
      unfolding handle update_activity
      handle-activity s idle =
          let s' = update_activity world config s in
          let wanted = requested_model unmarshal r in
          answer-activity wanted
            (switch_if_asked world config unmarshal upstream r others ticks wanted s')
            (asked-idle world config unmarshal upstream r others ticks wanted s' ∙ idle)
          ∙ asked-activity wanted s'

-- A request that was given to the backend is still being answered at a tick of the idle checker that
-- comes longer after its arrival than the idle timeout, and no other request has come: the checker
-- deletes the pod that answers it, where the cluster lets it, and the recorder shows 0, stopped.
pub long_request_is_cut :
    (world : World) (parse : ParseDuration) (c : Config) (unmarshal : Unmarshal)
    (upstream : Scaler world → ℕ) (r : Request) (others : Scaler world → Scaler world) (ticks : ℕ)
    (s : Scaler world) (n : ℕ) (later : world.api.Server)
    → s.is_scaling_up ≡ false
    → (handle world (k8s_config c) unmarshal upstream r others ticks s).0 ≡ forwarded n
    → less_int (get_idle_timeout parse c) (pos (world.now later - world.now s.server)) ≡ true
    → (pod_exists world.api (k8s_config c) later).0 ≡ ok true
    → (delete_pod world.api (k8s_config c) (pod_exists world.api (k8s_config c) later).1).0 ≡ none
    → let during = record (handle world (k8s_config c) unmarshal upstream r others ticks s).1 {
      server = later;
    } in
      (gauge (idle_check world parse c during).events ≡ 0)
      × ((idle_check world parse c during).server
          ≡ (delete_pod world.api (k8s_config c) (pod_exists world.api (k8s_config c) later).1).1)
long_request_is_cut world parse c unmarshal upstream r others ticks s n later idle given late there
      gone =
    let t = (handle world (k8s_config c) unmarshal upstream r others ticks s).1 in
    idle_is_stopped world parse c (record t { server = later })
      (ap (λ a. less_int (get_idle_timeout parse c) (pos (world.now later - a)))
          (handle-activity world (k8s_config c) unmarshal upstream r others ticks s idle)
        ∙ late)
      there gone
