-- ===== src/Proxy/Handler/Routing.antt =====
-- What the reply of proxyHandler says of the scaler.
use vllm_chill.Prelude.{
  ℕ, Bytes, same_iff, false, List, [], ◌∷◌, ◌++◌, Result, ok, err, panic, ◌≡◌, ◌≢◌, refl, ap, ◌∙◌,
  arith,
}
use vllm_chill.Kubernetes.Config.{Config}
use vllm_chill.Kubernetes.Models.{ModelConfig, is_empty}
use vllm_chill.Kubernetes.Crd.{get_model}
use vllm_chill.Proxy.Scaler.{World, Scaler, Event, request, ensure_scaled_up, update_activity}
use vllm_chill.Proxy.Scaler.Lifecycle.{
  gauge, gauge_from, scaled_up-running, ensure_scaled_up-idle, gauge_from-append,
}
use vllm_chill.Proxy.Scaler.Switching.{
  ensure_scaled_up-active, switch_model-active, switch_model-idle,
}
use vllm_chill.Proxy.Handler.{
  Request, forwarded, Switched, in_place, not_found, failed, broken, Unmarshal, requested_model,
  switch_to, handle_model_switch, serve, answer, switch_if_asked, handle, proxy_handler,
  return_available_models, list_infos, catalog, ModelInfo,
}

module _ (world : World) (config : Config) where
  open world use {api}

  switch_to-active :
      (wanted : Bytes) (r : Result ModelConfig) (s : Scaler world)
      → (switch_to world config wanted r s).0 ≡ in_place
      → (switch_to world config wanted r s).1.active_model ≡ wanted
  unfolding switch_to
  switch_to-active wanted (ok m) s h = ground (arith, switch_model-active world config wanted s)
  switch_to-active wanted (err e) s h = cc
  switch_to-active wanted panic s h = cc

  -- After a model switch that reports no error the requested model is the active one.
  pub handle_model_switch-active :
      (wanted : Bytes) (s : Scaler world)
      → (handle_model_switch world config wanted s).0 ≡ in_place
      → (handle_model_switch world config wanted s).1.active_model ≡ wanted
  unfolding handle_model_switch
  handle_model_switch-active wanted s h =
      let (r, server) = get_model api wanted s.server in
      ground (
        arith,
        same_iff wanted s.active_model,
        switch_to-active wanted r (record s { server = server }),
      )

  switch_to-idle :
      (wanted : Bytes) (r : Result ModelConfig) (s : Scaler world)
      → (switch_to world config wanted r s).1.is_scaling_up ≡ s.is_scaling_up
  unfolding switch_to
  switch_to-idle wanted (ok m) s = switch_model-idle world config wanted s
  switch_to-idle wanted (err e) s = refl
  switch_to-idle wanted panic s = refl

  pub handle_model_switch-idle :
      (wanted : Bytes) (s : Scaler world)
      → (handle_model_switch world config wanted s).1.is_scaling_up ≡ s.is_scaling_up
  unfolding handle_model_switch
  handle_model_switch-idle wanted s =
      let (r, server) = get_model api wanted s.server in
      ground (arith, switch_to-idle wanted r (record s { server = server }))

  module _ (unmarshal : Unmarshal) (upstream : Scaler world → ℕ) (r : Request) where
    serve-forwarded :
        (wanted : Bytes) (o : Result (Unit {0}) × Scaler world) (n : ℕ)
        → (serve world config unmarshal upstream r wanted o).0 ≡ forwarded n
        → (o.0 ≡ ok tt)
          × ((serve world config unmarshal upstream r wanted o).1 ≡ o.1)
          × (n ≡ upstream o.1)
    unfolding serve
    serve-forwarded wanted (ok u, s) n h = (refl, refl, ground (arith))
    serve-forwarded wanted (err e, s) n h = ground (arith)
    serve-forwarded wanted (panic, s) n h = cc

    serve-idle :
        (wanted : Bytes) (o : Result (Unit {0}) × Scaler world)
        → (serve world config unmarshal upstream r wanted o).1.is_scaling_up ≡ o.1.is_scaling_up
    unfolding serve
    serve-idle wanted (ok u, s) = refl
    serve-idle wanted (err e, s) = refl
    serve-idle wanted (panic, s) = refl

    catalog-not_forwarded :
        (m : Bytes) (o : Result (List ModelInfo)) (n : ℕ) → catalog world config m o ≢ forwarded n
    catalog-not_forwarded m (ok x) n h = cc
    catalog-not_forwarded m (err x) n h = cc
    catalog-not_forwarded m panic n h = cc

    return-not_forwarded :
        (m : Bytes) (s : Scaler world) (n : ℕ)
        → (return_available_models world config m s).0 ≢ forwarded n
    unfolding return_available_models
    return-not_forwarded m s n h = catalog-not_forwarded m (list_infos world config s).0 n h

    module _ (others : Scaler world → Scaler world) (ticks : ℕ) where
      abbrev pub IsServing : Bytes → Scaler world → Type 0
      IsServing wanted s =
          (s.active_model ≡ wanted) × (gauge s.events ≡ 2) × (s.is_scaling_up ≡ false)

      pub answer-forwarded :
          (wanted active : Bytes) (o : Switched × Scaler world) (n : ℕ)
          → o.1.is_scaling_up ≡ false
          → (o.0 ≡ in_place → o.1.active_model ≡ active)
          → (answer world config unmarshal upstream r others ticks wanted o).0 ≡ forwarded n
          → IsServing active (answer world config unmarshal upstream r others ticks wanted o).1
      unfolding answer
      answer-forwarded wanted active (in_place, s) n idle is_active h =
          let (ran, same_state, status) =
            serve-forwarded wanted (ensure_scaled_up world config others ticks s) n h in
          let (shown, free) = scaled_up-running world config others ticks s idle ran in
          let kept = ensure_scaled_up-active world config others ticks s idle in
          (
            ap (λ t. t.active_model) same_state ∙ kept ∙ is_active refl,
            ap (λ t. gauge t.events) same_state ∙ shown,
            ap (λ t. t.is_scaling_up) same_state ∙ free,
          )
      answer-forwarded wanted active (not_found m, s) n idle is_active h =
          absurd (return-not_forwarded m s n h)
      answer-forwarded wanted active (failed e, s) n idle is_active h = cc
      answer-forwarded wanted active (broken, s) n idle is_active h = cc

      pub asked-idle :
          (wanted : Bytes) (s : Scaler world)
          → (switch_if_asked world config unmarshal upstream r others ticks wanted
              s).1.is_scaling_up
            ≡ s.is_scaling_up
      unfolding is_empty
      asked-idle [] s = refl
      asked-idle (c ∷ cs) s = handle_model_switch-idle (c ∷ cs) s

      asked-active :
          (wanted : Bytes) (s : Scaler world)
          → wanted ≢ []
          → (switch_if_asked world config unmarshal upstream r others ticks wanted s).0 ≡ in_place
          → (switch_if_asked world config unmarshal upstream r others ticks wanted s).1.active_model
            ≡ wanted
      unfolding is_empty
      asked-active [] s some_name h = absurd (some_name refl)
      asked-active (c ∷ cs) s some_name h = handle_model_switch-active (c ∷ cs) s h

      handle-forwarded :
          (s : Scaler world) (n : ℕ)
          → s.is_scaling_up ≡ false
          → requested_model unmarshal r ≢ []
          → (handle world config unmarshal upstream r others ticks s).0 ≡ forwarded n
          → IsServing
              (requested_model unmarshal r)
              (handle world config unmarshal upstream r others ticks s).1
      unfolding handle update_activity
      handle-forwarded s n idle asked h =
          let s' = update_activity world config s in
          let wanted = requested_model unmarshal r in
          answer-forwarded wanted wanted
            (switch_if_asked world config unmarshal upstream r others ticks wanted s') n
            (asked-idle wanted s' ∙ idle) (asked-active wanted s' asked) h

      answer-idle :
          (wanted : Bytes) (o : Switched × Scaler world)
          → o.1.is_scaling_up ≡ false
          → (answer world config unmarshal upstream r others ticks wanted o).1.is_scaling_up ≡ false
      unfolding answer return_available_models list_infos
      answer-idle wanted (in_place, s) idle =
          serve-idle wanted (ensure_scaled_up world config others ticks s)
          ∙ ensure_scaled_up-idle world config others ticks s idle
      answer-idle wanted (not_found m, s) idle = idle
      answer-idle wanted (failed e, s) idle = idle
      answer-idle wanted (broken, s) idle = idle

      pub proxy_handler-idle :
          (s : Scaler world)
          → s.is_scaling_up ≡ false
          → (proxy_handler world config unmarshal upstream r others ticks s).1.is_scaling_up ≡ false
      unfolding proxy_handler handle update_activity
      proxy_handler-idle s idle =
          let s' = update_activity world config s in
          let wanted = requested_model unmarshal r in
          answer-idle wanted
            (switch_if_asked world config unmarshal upstream r others ticks wanted s')
            (asked-idle wanted s' ∙ idle)

      gauge-request :
          (es : List Event) (m p : Bytes) (st size : ℕ)
          → gauge (es ++ request m p st size ∷ []) ≡ gauge es
      gauge-request es m p st size = rw gauge_from-append (unfold gauge_from in refl)

      -- When proxyHandler gives a request that names a model to the backend, and no other goroutine
      -- was creating the pod, then the active model is the requested one, the recorder shows 2,
      -- running, and the flag of a creation under way is down.
      pub forwarded_to_requested :
          (s : Scaler world) (n : ℕ)
          → s.is_scaling_up ≡ false
          → requested_model unmarshal r ≢ []
          → (proxy_handler world config unmarshal upstream r others ticks s).0 ≡ forwarded n
          → let after = (proxy_handler world config unmarshal upstream r others ticks s).1 in
            (after.active_model ≡ requested_model unmarshal r)
            × (gauge after.events ≡ 2)
            × (after.is_scaling_up ≡ false)
      unfolding proxy_handler
      forwarded_to_requested s n idle asked h =
          let (reply, after) = handle world config unmarshal upstream r others ticks s in
          let (active, shown, free) = handle-forwarded s n idle asked h in
          (active, gauge-request after.events _ _ _ _ ∙ shown, free)
