-- ===== src/Scaling.antt =====
-- pkg/scaling/autoscaler.go: the scaler of a deployment, K8sAutoScaler. Replica counts and durations
-- are integers; a duration is in nanoseconds.
pub mod Reachable
pub mod Defaults
pub mod Idle
use vllm_chill.Prelude.{
  ℕ, ◌-◌, ◌*◌, Bytes, codes, Bool, true, false, not, ◌&&◌, Option, none, some, ℤ, pos, is_zero,
  same_int, less_int, List, [], ◌∷◌, Error, errorf, wrap, Result, ok, err, panic, if◌then◌else◌,
}

-- The client of the deployments and the polling helper. Neither is in the repository.
pub record Cluster : Type 1 where
  pub Server : Type 0
  pub Deployment : Type 0
  pub now : Server → ℕ
  -- a call with a namespace and a name or an object
  pub get_deployment : Bytes → Bytes → Server → Result Deployment × Server
  pub update_deployment : Bytes → Deployment → Server → Option Error × Server
  pub set_replicas : ℤ → Deployment → Deployment
  -- `none` for the nil pointer
  pub spec_replicas : Deployment → Option ℤ
  pub ready_replicas : Deployment → ℤ
  -- wait.PollUntilContextTimeout, with the condition that it polls
  pub poll : (Server → Result Bool × Server) → Server → Result (Unit {0}) × Server

pub record Config : Type 0 where
  pub namespace : Bytes
  pub deployment : Bytes
  pub scale_down_delay : ℤ
  pub check_interval : ℤ
  pub min_replicas : ℤ
  pub max_replicas : ℤ

pub record Status : Type 0 where
  pub is_scaled_up : Bool
  pub is_scaling_up : Bool
  pub last_activity : ℕ
  pub replicas : ℤ

abbrev pub second : ℕ
second = 1000000000

abbrev pub default_scale_down_delay : ℤ
default_scale_down_delay = pos (300 * second)

abbrev pub default_check_interval : ℤ
default_check_interval = pos (10 * second)

-- a field of the configuration that is 0 gets its default
abbrev pub or_default : ℤ → ℤ → ℤ
or_default d x = if is_zero x then d else x

-- the configuration that NewK8sAutoScaler keeps
unfoldable pub with_defaults : Config → Config
with_defaults c = record c {
  scale_down_delay = or_default default_scale_down_delay c.scale_down_delay;
  check_interval = or_default default_check_interval c.check_interval;
  min_replicas = or_default (pos 1) c.min_replicas;
  max_replicas = or_default (pos 1) c.max_replicas;
}

-- The fields of K8sAutoScaler that change, with the state of the server.
pub record Scaler (cluster : Cluster) : Type 0 where
  pub server : cluster.Server
  pub last_activity : ℕ
  pub is_scaling_up : Bool
  pub current_replicas : ℤ

module _ (cluster : Cluster) (config : Config) where
  open cluster use {
    Server, Deployment, now, get_deployment, update_deployment, set_replicas, spec_replicas,
    ready_replicas, poll,
  }

  -- NewK8sAutoScaler; its configuration is `with_defaults` of the one that it is given.
  unfoldable pub new_scaler : Server → Scaler cluster
  new_scaler server = record {
    server = server;
    last_activity = now server;
    is_scaling_up = false;
    current_replicas = pos 0;
  }

  -- UpdateActivity
  unfoldable pub update_activity : Scaler cluster → Scaler cluster
  update_activity s = record s { last_activity = now s.server }

  -- time.Since(as.lastActivity)
  abbrev pub idle_time : Scaler cluster → ℤ
  idle_time s = pos (now s.server - s.last_activity)

  -- IsActive
  unfoldable pub is_active : Scaler cluster → Bool
  is_active s = less_int (idle_time s) config.scale_down_delay

  abbrev pub readiness : Deployment → Option ℤ → Result Bool
  readiness d none = panic
  readiness d (some n) = ok (same_int (ready_replicas d) n)

  abbrev pub ready_answer : Result Deployment → Result Bool
  ready_answer (ok d) = readiness d (spec_replicas d)
  ready_answer (err e) = err e
  ready_answer panic = panic

  -- the condition that waitForDeploymentReady polls
  unfoldable pub is_deployment_ready : Server → Result Bool × Server
  is_deployment_ready server =
      let (r, server') = get_deployment config.namespace config.deployment server in
      (ready_answer r, server')

  -- waitForDeploymentReady
  unfoldable pub wait_for_deployment_ready : Scaler cluster → Result (Unit {0}) × Scaler cluster
  wait_for_deployment_ready s =
      let (r, server) = poll is_deployment_ready s.server in (r, record s { server = server })

  -- what ScaleUp and ScaleDown make of the answer to Update
  abbrev pub updated : ℤ → Option Error → Scaler cluster → Result (Unit {0}) × Scaler cluster
  updated n none s = (ok tt, record s { current_replicas = n })
  updated n (some e) s = (err (wrap (codes "failed to update deployment") e), s)

  -- what they make of the answer to Get
  abbrev pub update_if : ℤ → Result Deployment → Scaler cluster → Result (Unit {0}) × Scaler cluster
  update_if n (ok d) s =
      let (e, server) = update_deployment config.namespace (set_replicas n d) s.server in
      updated n e (record s { server = server })
  update_if n (err e) s = (err (wrap (codes "failed to get deployment") e), s)
  update_if n panic s = (panic, s)

  -- the part that ScaleUp and ScaleDown share: the deployment gets a number of replicas
  unfoldable pub set_deployment : ℤ → Scaler cluster → Result (Unit {0}) × Scaler cluster
  set_deployment n s =
      let (r, server) = get_deployment config.namespace config.deployment s.server in
      update_if n r (record s { server = server })

  abbrev pub wait_if_updated :
      Result (Unit {0}) × Scaler cluster → Result (Unit {0}) × Scaler cluster
  wait_if_updated (ok u, s) = wait_for_deployment_ready s
  wait_if_updated (err e, s) = (err e, s)
  wait_if_updated (panic, s) = (panic, s)

  -- the deferred reset of isScalingUp
  abbrev pub release : Result (Unit {0}) × Scaler cluster → Result (Unit {0}) × Scaler cluster
  release (r, s) = (r, record s { is_scaling_up = false })

  -- ScaleUp, which holds the lock from its start to its end
  unfoldable pub scale_up : Scaler cluster → Result (Unit {0}) × Scaler cluster
  scale_up s =
      if not (less_int s.current_replicas config.max_replicas)
      then (ok tt, s)
      else release
          (wait_if_updated (set_deployment config.max_replicas (record s { is_scaling_up = true })))

  -- ScaleDown
  unfoldable pub scale_down : Scaler cluster → Result (Unit {0}) × Scaler cluster
  scale_down s =
      if not (less_int config.min_replicas s.current_replicas)
      then (ok tt, s)
      else set_deployment config.min_replicas s

  -- WaitForScaleUp. It keeps the lock while it selects, so the goroutine that is to wait for the
  -- broadcast gets no further than its own call of Lock, and only the timeout can fire.
  unfoldable pub wait_for_scale_up : Scaler cluster → Result (Unit {0})
  wait_for_scale_up s =
      if not s.is_scaling_up then ok tt else err (errorf (codes "timeout waiting for scale up"))

  -- GetStatus
  unfoldable pub get_status : Scaler cluster → Status
  get_status s = record {
    is_scaled_up = less_int config.min_replicas s.current_replicas;
    is_scaling_up = s.is_scaling_up;
    last_activity = s.last_activity;
    replicas = s.current_replicas;
  }

  -- checkAndScale; it logs an error and goes on.
  unfoldable pub check_and_scale : Scaler cluster → Scaler cluster
  check_and_scale s =
      let (r, s') = scale_down s in
      if less_int config.scale_down_delay (idle_time s)
        && less_int config.min_replicas s.current_replicas
      then s'
      else s

-- What the loop of runScalingLoop receives: a tick, with the state of the server then, or the end of
-- its context.
pub data Signal (cluster : Cluster) : Type 0 where
  tick : cluster.Server → Signal cluster
  done : Signal cluster

-- runScalingLoop, over what it receives
unfoldable pub run_scaling_loop :
    (cluster : Cluster) → Config → List (Signal cluster) → Scaler cluster → Scaler cluster
run_scaling_loop cluster config [] s = s
run_scaling_loop cluster config (tick server ∷ rest) s =
    run_scaling_loop cluster config rest
      (check_and_scale cluster config (record s { server = server }))
run_scaling_loop cluster config (done ∷ rest) s = s
