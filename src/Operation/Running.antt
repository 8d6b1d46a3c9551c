-- ===== src/Operation/Running.antt =====
-- What the replies to manual starts and stops say of the autoscaler.
use vllm_chill.Prelude.{
  ℕ, Bytes, codes, same, same_iff, Bool, true, false, Error, Result, ok, err, panic, ◌≡◌, ◌≢◌, refl,
  ◌∙◌, arith, ap, ◌++◌, if◌then◌else◌,
}
use vllm_chill.Kubernetes.Config.{Config}
use vllm_chill.Proxy.Scaler.{World, Scaler, ensure_scaled_up, update_activity, manage_pod}
use vllm_chill.Proxy.Scaler.Lifecycle.{gauge, managed_gauge, scaled_up-running, manage_pod-gauge}
use vllm_chill.Proxy.Background.{stop as stop_scaler}
use vllm_chill.Operation.{
  Reply, method_not_allowed, start_failed, stop_failed, status_of, reply_to, start_with, stop_with,
  start_handler, stop_handler, scaler_manager,
}

-- a status of 200 is a success
success_of :
    (failure : Error → Reply) (r : Result (Unit {0}))
    → ((e : Error) → status_of (failure e) ≢ 200)
    → status_of (reply_to failure r) ≡ 200
    → r ≡ ok tt
unfolding status_of
success_of failure (ok u) fails h = refl
success_of failure (err e) fails h = absurd (fails e h)
success_of failure panic fails h = absurd (omega arith)

no_failure : ◌≢◌ {A = ℕ} 500 200
no_failure h = omega arith

gated-success :
    {State : Type 0} (b : Bool) (o : Reply × State) (s : State)
    → status_of (if b then o else (method_not_allowed, s)).0 ≡ 200
    → (b ≡ true) × (status_of o.0 ≡ 200) × ((if b then o else (method_not_allowed, s)).1 ≡ o.1)
unfolding status_of
gated-success true o s h = (refl, h, refl)
gated-success false o s h = absurd (omega arith)

module _ (world : World) (config : Config) (others : Scaler world → Scaler world) (ticks : ℕ) where
  -- If no other goroutine is creating the pod and the manual start answers 200, then the request was
  -- a POST, and the recorder shows 2, running.
  pub start_handler-running :
      (method : Bytes) (s : Scaler world)
      → s.is_scaling_up ≡ false
      → status_of (start_handler (scaler_manager world config others ticks) method s).0 ≡ 200
      → (method ≡ codes "POST")
        × (gauge (start_handler (scaler_manager world config others ticks) method s).1.events ≡ 2)
  unfolding start_handler update_activity status_of
  start_handler-running method s idle h =
      let s' = update_activity world config s in
      let failure = λ (e : Error). start_failed (codes "Failed to start vLLM: " ++ e.message) in
      let o = start_with (scaler_manager world config others ticks) failure s in
      let (post, good, after) = gated-success (same method (codes "POST")) o s h in
      let ran =
        success_of failure (ensure_scaled_up world config others ticks s').0 (λ e. no_failure)
          good in
      let (shown, free) = scaled_up-running world config others ticks s' idle ran in
      ((same_iff method (codes "POST")).0 post, ap (λ t. gauge t.events) after ∙ shown)

  -- If the manual stop answers 200, then the request was a POST, and the recorder shows 0, stopped.
  pub stop_handler-stopped :
      (method : Bytes) (s : Scaler world)
      → status_of (stop_handler (scaler_manager world config others ticks) method s).0 ≡ 200
      → (method ≡ codes "POST")
        × (gauge (stop_handler (scaler_manager world config others ticks) method s).1.events ≡ 0)
  unfolding stop_handler stop_scaler status_of
  stop_handler-stopped method s h =
      let failure = λ (e : Error). stop_failed (codes "Failed to stop vLLM: " ++ e.message) in
      let o = stop_with (scaler_manager world config others ticks) failure s in
      let (post, good, after) = gated-success (same method (codes "POST")) o s h in
      let ran = success_of failure (manage_pod world config false s).0 (λ e. no_failure) good in
      (
        (same_iff method (codes "POST")).0 post,
        ap (λ t. gauge t.events) after
            ∙ manage_pod-gauge world config false s (λ broken. cc)
            ∙ ap (λ r. managed_gauge world config false r 0) ran,
      )
