-- ===== src/Proxy/Background/Sequential.antt =====
-- The states that the program reaches when its calls follow one another: requests, starts, stops,
-- switches, and the ticks of the two checks, with the cluster changing in between.
use vllm_chill.Prelude.{
  ℕ, Bytes, false, Option, none, some, Error, Result, ok, err, panic, ◌≡◌, refl, ◌∙◌,
}
use vllm_chill.Kubernetes.Models.{ModelConfig}
use vllm_chill.Kubernetes.Crd.{get_model}
use vllm_chill.Kubernetes.Manager.{ensure_vllm_resources}
use vllm_chill.Proxy.Config.{Config, ParseDuration, k8s_config, validate}
use vllm_chill.Proxy.Scaler.{World, Scaler, ensure_scaled_up, switch_model}
use vllm_chill.Proxy.Scaler.Lifecycle.{ensure_scaled_up-idle}
use vllm_chill.Proxy.Scaler.Switching.{switch_model-idle, delete-idle}
use vllm_chill.Proxy.Handler.{Request, Unmarshal, proxy_handler}
use vllm_chill.Proxy.Handler.Routing.{proxy_handler-idle}
use vllm_chill.Proxy.Background.{
  check_config_drift, idle_check, stop, new_auto_scaler, new_scaler, start_with, started, start_if,
}
use vllm_chill.Proxy.Background.Effects.{check_config_drift-unrecorded, idle_check-keeps}

module _ (world : World) (parse : ParseDuration) (c : Config) (unmarshal : Unmarshal) where
  open world use {api}

  -- One call, from its start to its end. `others` is never used by a call that has no rival.
  pub data Step : Scaler world → Scaler world → Type 0 where
    answering :
        (upstream : Scaler world → ℕ) (r : Request) (others : Scaler world → Scaler world)
        (ticks : ℕ) (s : Scaler world)
        → Step s (proxy_handler world (k8s_config c) unmarshal upstream r others ticks s).1
    starting :
        (others : Scaler world → Scaler world) (ticks : ℕ) (s : Scaler world)
        → Step s (ensure_scaled_up world (k8s_config c) others ticks s).1
    stopping : (s : Scaler world) → Step s (stop world (k8s_config c) s).1
    switching : (id : Bytes) (s : Scaler world) → Step s (switch_model world (k8s_config c) id s).1
    idling : (s : Scaler world) → Step s (idle_check world parse c s)
    drifting : (s : Scaler world) → Step s (check_config_drift world (k8s_config c) s)
    elapsing : (s : Scaler world) (server : api.Server) → Step s (record s { server = server })

  pub data Reach : Scaler world → Type 0 where
    start :
        (server : api.Server) (s : Scaler world)
        → new_auto_scaler world parse c server ≡ ok s
        → Reach s
    step : (s t : Scaler world) → Reach s → Step s t → Reach t

  started-fresh :
      (e : Option Error) (s t : Scaler world)
      → started world e s ≡ ok t
      → (t.is_scaling_up ≡ s.is_scaling_up) × (t.active_model ≡ s.active_model)
  started-fresh none s t h = (cc, cc)
  started-fresh (some e) s t h = cc

  start_with-fresh :
      (r : Result ModelConfig) (s t : Scaler world)
      → start_with world c r s ≡ ok t
      → (t.is_scaling_up ≡ s.is_scaling_up) × (t.active_model ≡ s.active_model)
  unfolding start_with
  start_with-fresh (ok m) s t h =
      let (e, server) = ensure_vllm_resources api (k8s_config c) s.server in
      started-fresh e (record s { server = server }) t h
  start_with-fresh (err e) s t h = cc
  start_with-fresh panic s t h = cc

  start_if-ok :
      (e : Option Error) (r : Result (Scaler world)) (t : Scaler world)
      → start_if e r ≡ ok t
      → (e ≡ none) × (r ≡ ok t)
  start_if-ok none r t h = (refl, h)
  start_if-ok (some e) r t h = cc

  -- NewAutoScaler succeeds only for a configuration that Validate accepts; the configured model is
  -- then the active one, and no pod is being created.
  pub new_auto_scaler-fresh :
      (server : api.Server) (t : Scaler world)
      → new_auto_scaler world parse c server ≡ ok t
      → (validate parse c ≡ none) × (t.active_model ≡ c.model_id) × (t.is_scaling_up ≡ false)
  unfolding new_auto_scaler new_scaler
  new_auto_scaler-fresh server t h =
      let s = new_scaler world c server in
      let (r, server') = get_model api c.model_id server in
      let s' = record s { server = server' } in
      let (valid, begun) = start_if-ok (validate parse c) (start_with world c r s') t h in
      let (free, active) = start_with-fresh r s' t begun in (valid, active, free)

  Step-idle : (s t : Scaler world) → Step s t → s.is_scaling_up ≡ false → t.is_scaling_up ≡ false
  unfolding stop
  Step-idle _ _ (answering upstream r others ticks s) h =
      proxy_handler-idle world (k8s_config c) unmarshal upstream r others ticks s h
  Step-idle _ _ (starting others ticks s) h =
      ensure_scaled_up-idle world (k8s_config c) others ticks s h
  Step-idle _ _ (stopping s) h = delete-idle world (k8s_config c) s ∙ h
  Step-idle _ _ (switching id s) h = switch_model-idle world (k8s_config c) id s ∙ h
  Step-idle _ _ (idling s) h = (idle_check-keeps world parse c s).1 ∙ h
  Step-idle _ _ (drifting s) h =
      let (t, m, f, e) = check_config_drift-unrecorded world (k8s_config c) s in f ∙ h
  Step-idle _ _ (elapsing s server) h = h

  -- In every state that is reached by calls that follow one another, no pod is being created: the
  -- flag that makes the others wait is always taken back, whatever the cluster answers.
  pub Reach-idle : (s : Scaler world) → Reach s → s.is_scaling_up ≡ false
  Reach-idle s (start server _ h) = (new_auto_scaler-fresh server s h).2
  Reach-idle _ (step s t r e) = Step-idle s t e (Reach-idle s r)
