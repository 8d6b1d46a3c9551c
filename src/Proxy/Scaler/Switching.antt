-- ===== src/Proxy/Scaler/Switching.antt =====
-- Which operations change the active model.
use vllm_chill.Prelude.{
  ℕ, Bytes, Bool, true, false, Option, none, some, Error, Result, ok, err, panic, ◌≡◌, refl, ◌∙◌,
  arith,
}
use vllm_chill.Kubernetes.Config.{Config}
use vllm_chill.Kubernetes.Manager.{pod_exists, delete_pod}
use vllm_chill.Proxy.Scaler.Kept.{IsApart, manage_pod-kept, ensure_scaled_up-kept}
use vllm_chill.Proxy.Scaler.{
  World, Scaler, vllm_state, log_event, created, deleted, manage_pod, ensure_scaled_up, activate,
  switch_if, switch_model,
}

module _ (world : World) (config : Config) where
  open world use {api, now}

  active_apart : IsApart world config (λ s. s.active_model)
  active_apart = record { server = λ v s. refl; events = λ es s. refl; flag = λ b s. refl }

  pub manage_pod-active :
      (create : Bool) (s : Scaler world)
      → (manage_pod world config create s).1.active_model ≡ s.active_model
  manage_pod-active = manage_pod-kept world config (λ s. s.active_model) active_apart

  pub ensure_scaled_up-active :
      (others : Scaler world → Scaler world) (ticks : ℕ) (s : Scaler world)
      → s.is_scaling_up ≡ false
      → (ensure_scaled_up world config others ticks s).1.active_model ≡ s.active_model
  ensure_scaled_up-active = ensure_scaled_up-kept world config (λ s. s.active_model) active_apart

  -- the active model that a switch leaves
  abbrev pub active_after : Bytes → Result (Unit {0}) → Bytes → Bytes
  active_after id (ok u) old = id
  active_after id (err e) old = old
  active_after id panic old = old

  activate-active :
      (id : Bytes) (r : Result (Unit {0}) × Scaler world)
      → (activate world config id r).1.active_model
        ≡ active_after id (activate world config id r).0 r.1.active_model
  activate-active id (ok u, s) = refl
  activate-active id (err e, s) = refl
  activate-active id (panic, s) = refl

  switch_if-active :
      (id : Bytes) (r : Result Bool) (s : Scaler world)
      → (switch_if world config id r s).1.active_model
        ≡ active_after id (switch_if world config id r s).0 s.active_model
  unfolding switch_if
  switch_if-active id (ok true) s =
      ground
        (arith, activate-active id (manage_pod world config false s), manage_pod-active false s)
  switch_if-active id (ok false) s = refl
  switch_if-active id (err e) s = refl
  switch_if-active id panic s = refl

  -- SwitchModel makes the model active exactly when it succeeds; an error leaves the old one.
  pub switch_model-active :
      (id : Bytes) (s : Scaler world)
      → (switch_model world config id s).1.active_model
        ≡ active_after id (switch_model world config id s).0 s.active_model
  unfolding switch_model
  switch_model-active id s =
      let (r, server) = pod_exists api config s.server in
      switch_if-active id r (record s { server = server })

  created-idle :
      (start : ℕ) (e : Option Error) (s : Scaler world)
      → (created world config start e s).1.is_scaling_up ≡ s.is_scaling_up
  unfolding created
  created-idle start none s = refl
  created-idle start (some e) s = refl

  deleted-idle :
      (start : ℕ) (e : Option Error) (s : Scaler world)
      → (deleted world config start e s).1.is_scaling_up ≡ s.is_scaling_up
  unfolding deleted
  deleted-idle start none s = refl
  deleted-idle start (some e) s = refl

  activate-idle :
      (id : Bytes) (r : Result (Unit {0}) × Scaler world)
      → (activate world config id r).1.is_scaling_up ≡ r.1.is_scaling_up
  activate-idle id (ok u, s) = refl
  activate-idle id (err e, s) = refl
  activate-idle id (panic, s) = refl

  pub delete-idle :
      (s : Scaler world) → (manage_pod world config false s).1.is_scaling_up ≡ s.is_scaling_up
  unfolding manage_pod
  delete-idle s =
      let s' = log_event world config (vllm_state 3) s in
      let (e, server) = delete_pod api config s'.server in
      deleted-idle (now s.server) e (record s' { server = server })

  switch_if-idle :
      (id : Bytes) (r : Result Bool) (s : Scaler world)
      → (switch_if world config id r s).1.is_scaling_up ≡ s.is_scaling_up
  unfolding switch_if
  switch_if-idle id (ok true) s = activate-idle id (manage_pod world config false s) ∙ delete-idle s
  switch_if-idle id (ok false) s = refl
  switch_if-idle id (err e) s = refl
  switch_if-idle id panic s = refl

  pub switch_model-idle :
      (id : Bytes) (s : Scaler world)
      → (switch_model world config id s).1.is_scaling_up ≡ s.is_scaling_up
  unfolding switch_model
  switch_model-idle id s =
      let (r, server) = pod_exists api config s.server in
      switch_if-idle id r (record s { server = server })
