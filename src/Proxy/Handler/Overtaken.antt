-- ===== src/Proxy/Handler/Overtaken.antt =====
-- Two requests of pkg/proxy/autoscaler.go that ask for different models at the same time: nothing holds
-- the active model between handleModelSwitch of a request and its ensureScaledUp.
use vllm_chill.Prelude.{ℕ, false, ◌≡◌, ◌∙◌}
use vllm_chill.Kubernetes.Config.{Config}
use vllm_chill.Proxy.Scaler.{World, Scaler}
use vllm_chill.Proxy.Scaler.Lifecycle.{gauge}
use vllm_chill.Proxy.Handler.{
  Request, Reply, forwarded, Switched, in_place, Unmarshal, requested_model, handle_model_switch,
  answer,
}
use vllm_chill.Proxy.Handler.Routing.{
  handle_model_switch-active, handle_model_switch-idle, answer-forwarded,
}

module _ (world : World) (config : Config) (unmarshal : Unmarshal) where
  -- the model switch of a request
  abbrev pub switch_for : Request → Scaler world → Switched × Scaler world
  switch_for r s = handle_model_switch world config (requested_model unmarshal r) s

  -- what a request comes to whose model switch reported no error
  abbrev pub go_on :
      (Scaler world → ℕ)
      → Request
      → (Scaler world → Scaler world)
      → ℕ
      → Scaler world
      → Reply × Scaler world
  go_on upstream r others ticks s =
      answer world config unmarshal upstream r others ticks (requested_model unmarshal r)
        (in_place, s)

  -- The model switch of a request succeeds, then that of another request, and then the first one goes
  -- on. If it is given to the backend, the active model is the one that the other request asked for,
  -- and the recorder shows 2, running. No other goroutine was creating the pod at the start.
  pub overtaken_request :
      (upstream : Scaler world → ℕ) (r other : Request) (others : Scaler world → Scaler world)
      (ticks : ℕ) (s : Scaler world) (n : ℕ)
      → s.is_scaling_up ≡ false
      → (switch_for r s).0 ≡ in_place
      → (switch_for other (switch_for r s).1).0 ≡ in_place
      → (go_on upstream r others ticks (switch_for other (switch_for r s).1).1).0 ≡ forwarded n
      → let after = (go_on upstream r others ticks (switch_for other (switch_for r s).1).1).1 in
        (after.active_model ≡ requested_model unmarshal other) × (gauge after.events ≡ 2)
  overtaken_request upstream r other others ticks s n idle switched switched' went =
      let wanted = requested_model unmarshal r in
      let wanted' = requested_model unmarshal other in
      let first = (switch_for r s).1 in
      let still_idle =
        handle_model_switch-idle world config wanted' first
        ∙ handle_model_switch-idle world config wanted s
        ∙ idle in
      let (active, shown, free) =
        answer-forwarded world config unmarshal upstream r others ticks wanted wanted'
          (in_place, (switch_for other first).1) n still_idle
          (λ here. handle_model_switch-active world config wanted' first switched') went in
      (active, shown)
