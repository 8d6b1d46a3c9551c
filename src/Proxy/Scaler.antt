-- ===== src/Proxy/Scaler.antt =====
-- The AutoScaler of pkg/proxy/autoscaler.go: creating and deleting the pod, waiting until it is
-- ready, and switching the model. One goroutine's calls, over any API server.
pub mod Kept
pub mod Lifecycle
pub mod Switching
use vllm_chill.Prelude.{
  ℕ, zero, suc, ◌-◌, Bytes, codes, same, Bool, true, false, ◌&&◌, Option, none, some, List, [], ◌∷◌,
  ◌++◌, any, ℤ, Error, errorf, wrap, Result, ok, err, panic, if◌then◌else◌,
}
use vllm_chill.Kubernetes.Config.{Config}
use vllm_chill.Kubernetes.Models.{ModelConfig}
use vllm_chill.Kubernetes.Pod.{Pod, Condition}
use vllm_chill.Kubernetes.Api.{Api}
use vllm_chill.Kubernetes.Crd.{get_model}
use vllm_chill.Kubernetes.Manager.{get_pod, pod_exists, create_pod, delete_pod}

pub data Direction : Type 0 where
  up down : Direction

-- What the scaler tells the metrics recorder; times are durations.
pub data Event : Type 0 where
  -- SetVLLMState: 0 stopped, 1 starting, 2 running, 3 stopping
  vllm_state : ℕ → Event
  -- RecordScaleOp
  scale_op : Direction → Bool → ℕ → Event
  -- UpdateReplicas
  replicas : ℕ → Event
  -- RecordVLLMStartup and RecordVLLMShutdown
  startup : ℕ → Event
  shutdown : ℕ → Event
  -- UpdateActivity
  activity : ℕ → Event
  -- RecordRequest: the method, the path, the status and the size of the request's body
  request : Bytes → Bytes → ℕ → ℕ → Event

-- Everything outside the program: the API server, and the clock.
pub record World : Type 1 where
  pub api : Api
  pub now : api.Server → ℕ

-- The fields of AutoScaler that change, with the state of the server and what was recorded.
pub record Scaler (world : World) : Type 0 where
  pub server : world.api.Server
  pub last_activity : ℕ
  pub active_model : Bytes
  pub is_scaling_up : Bool
  pub events : List Event

-- The pod's readiness test.
unfoldable pub is_ready : Pod → Bool
unfolding same
is_ready p = any (λ c. same c.kind (codes "Ready") && same c.status (codes "True")) p.conditions

module _ (world : World) (config : Config) where
  open world use {api, now}

  abbrev pub log_event : Event → Scaler world → Scaler world
  log_event e s = record s { events = s.events ++ e ∷ [] }

  -- time.Since
  abbrev pub since : ℕ → Scaler world → ℕ
  since start s = now s.server - start

  -- what managePod does after CreatePod has answered
  unfoldable pub created : ℕ → Option Error → Scaler world → Result (Unit {0}) × Scaler world
  created start (some e) s =
      (err e, log_event (vllm_state 0) (log_event (scale_op up false (since start s)) s))
  created start none s =
      (ok tt, log_event (replicas 1) (log_event (scale_op up true (since start s)) s))

  -- what it does after GetModel has answered
  unfoldable pub create_with :
      ℕ → Result ModelConfig → Scaler world → Result (Unit {0}) × Scaler world
  create_with start (ok m) s =
      let (e, server) = create_pod api config m s.server in
      created start e (record s { server = server })
  create_with start (err e) s = (
    err (wrap (codes "failed to get model config for '" ++ s.active_model ++ codes "'") e),
    log_event (vllm_state 0) (log_event (scale_op up false (since start s)) s),
  )
  create_with start panic s = (panic, s)

  -- what it does after DeletePod has answered
  unfoldable pub deleted : ℕ → Option Error → Scaler world → Result (Unit {0}) × Scaler world
  deleted start (some e) s =
      (err e, log_event (vllm_state 2) (log_event (scale_op down false (since start s)) s))
  deleted start none s = (
    ok tt,
    log_event (vllm_state 0) (
        log_event (shutdown (since start s))
          (log_event (replicas 0) (log_event (scale_op down true (since start s)) s))),
  )

  -- managePod; the first argument is `create`.
  unfoldable pub manage_pod : Bool → Scaler world → Result (Unit {0}) × Scaler world
  manage_pod true s =
      let s' = log_event (vllm_state 1) s in
      let (r, server) = get_model api s'.active_model s'.server in
      create_with (now s.server) r (record s' { server = server })
  manage_pod false s =
      let s' = log_event (vllm_state 3) s in
      let (e, server) = delete_pod api config s'.server in
      deleted (now s.server) e (record s' { server = server })

  -- The loop of waitForReady. The number is how often the ticker fires before the context is done.
  unfoldable pub wait_loop : ℕ → ℕ → Scaler world → Result (Unit {0}) × Scaler world
  wait_loop start zero s =
      (err (errorf (codes "timeout waiting for pod to be ready")), log_event (vllm_state 0) s)
  wait_loop start (suc ticks) s =
      let (r, server) = get_pod api config s.server in
      let s' = record s { server = server } in
      let ready = log_event (vllm_state 2) (log_event (startup (since start s')) s') in
      let again = wait_loop start ticks s' in
      elim r [
        | ok p ↦ if is_ready p then (ok tt, ready) else again
        | err e ↦ again
        | panic ↦ (panic, s')
      ]

  -- waitForReady
  unfoldable pub wait_for_ready : ℕ → Scaler world → Result (Unit {0}) × Scaler world
  unfolding wait_loop
  wait_for_ready ticks s = wait_loop (now s.server) ticks s

  -- the rest of ensureScaledUp once the pod is created
  abbrev pub wait_if_created :
      ℕ → Result (Unit {0}) × Scaler world → Result (Unit {0}) × Scaler world
  wait_if_created ticks (ok u, s) = wait_for_ready ticks s
  wait_if_created ticks (err e, s) = (err e, s)
  wait_if_created ticks (panic, s) = (panic, s)

  -- the deferred reset of isScalingUp, which runs on a panic too
  abbrev pub release : Result (Unit {0}) × Scaler world → Result (Unit {0}) × Scaler world
  release (r, s) = (r, record s { is_scaling_up = false })

  -- what ensureScaledUp does once it knows whether the pod exists; `others` is what the other
  -- goroutines do while this one waits for the condition
  unfoldable pub scale_up_if :
      (Scaler world → Scaler world)
      → ℕ
      → Result Bool
      → Scaler world
      → Result (Unit {0}) × Scaler world
  scale_up_if others ticks (err e) s = (err e, s)
  scale_up_if others ticks panic s = (panic, s)
  scale_up_if others ticks (ok true) s = wait_for_ready ticks s
  scale_up_if others ticks (ok false) s =
      if s.is_scaling_up
      then (ok tt, others s)
      else release (wait_if_created ticks (manage_pod true (record s { is_scaling_up = true })))

  -- ensureScaledUp, which is Start of the operation interface too
  unfoldable pub ensure_scaled_up :
      (Scaler world → Scaler world) → ℕ → Scaler world → Result (Unit {0}) × Scaler world
  ensure_scaled_up others ticks s =
      let (r, server) = pod_exists api config s.server in
      scale_up_if others ticks r (record s { server = server })

  -- updateActivity
  unfoldable pub update_activity : Scaler world → Scaler world
  update_activity s =
      let t = now s.server in log_event (activity t) (record s { last_activity = t })

  -- what SwitchModel does after the old pod is gone, or was not there
  abbrev pub activate : Bytes → Result (Unit {0}) × Scaler world → Result (Unit {0}) × Scaler world
  activate id (ok u, s) = (ok tt, record s { active_model = id })
  activate id (err e, s) = (err (wrap (codes "failed to stop current pod") e), s)
  activate id (panic, s) = (panic, s)

  unfoldable pub switch_if : Bytes → Result Bool → Scaler world → Result (Unit {0}) × Scaler world
  switch_if id (ok true) s = activate id (manage_pod false s)
  switch_if id (ok false) s = activate id (ok tt, s)
  switch_if id (err e) s = (err (wrap (codes "failed to check pod existence") e), s)
  switch_if id panic s = (panic, s)

  -- SwitchModel
  unfoldable pub switch_model : Bytes → Scaler world → Result (Unit {0}) × Scaler world
  switch_model id s =
      let (r, server) = pod_exists api config s.server in
      switch_if id r (record s { server = server })
