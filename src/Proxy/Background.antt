-- ===== src/Proxy/Background.antt =====
-- The goroutines of pkg/proxy/autoscaler.go beside the requests: one tick of the idle checker and of
-- the drift check, the restart of the pod, and the start of the program. The watch of the models only calls the restart.
pub mod Effects
pub mod Interrupted
pub mod Sequential
use vllm_chill.Prelude.{
  ℕ, ◌-◌, Bytes, Bool, true, false, Option, none, some, ℤ, pos, less_int, Error, Result, ok, err,
  panic, if◌then◌else◌, codes, ◌++◌, List, [], wrap,
}
use vllm_chill.Kubernetes.Config.{Config as K8sConfig}
use vllm_chill.Kubernetes.Models.{ModelConfig}
use vllm_chill.Kubernetes.Crd.{get_model}
use vllm_chill.Kubernetes.Manager.{pod_exists, delete_pod, verify_pod_config, ensure_vllm_resources}
use vllm_chill.Proxy.Config.{Config, ParseDuration, validate, get_idle_timeout, k8s_config}
use vllm_chill.Proxy.Scaler.{World, Scaler, manage_pod}

module _ (world : World) (config : K8sConfig) where
  open world use {api}

  -- Stop, of the operation interface
  unfoldable pub stop : Scaler world → Result (Unit {0}) × Scaler world
  stop s = manage_pod world config false s

  -- what the idle checker does once it knows whether the pod exists
  abbrev pub stop_if : Result Bool → Scaler world → Scaler world
  stop_if (ok true) s = (manage_pod world config false s).1
  stop_if (ok false) s = s
  stop_if (err e) s = s
  stop_if panic s = s

  -- what restartVLLMPod does once it knows whether the pod exists
  abbrev pub delete_if : Result Bool → Scaler world → Scaler world
  delete_if (ok true) s = record s { server = (delete_pod api config s.server).1 }
  delete_if (ok false) s = s
  delete_if (err e) s = s
  delete_if panic s = s

  -- restartVLLMPod
  unfoldable pub restart_pod : Scaler world → Scaler world
  restart_pod s =
      let (r, server) = pod_exists api config s.server in delete_if r (record s { server = server })

  abbrev pub restart_unless : Result Bool → Scaler world → Scaler world
  restart_unless (ok true) s = s
  restart_unless (ok false) s = restart_pod s
  restart_unless (err e) s = s
  restart_unless panic s = s

  -- checkConfigDrift once GetModel has answered
  unfoldable pub compare_with : Result ModelConfig → Scaler world → Scaler world
  compare_with (ok m) s =
      let (r, server) = verify_pod_config api config m s.server in
      restart_unless r (record s { server = server })
  compare_with (err e) s = s
  compare_with panic s = s

  -- checkConfigDrift. A panic ends the program, so what it leaves does not matter.
  unfoldable pub check_config_drift : Scaler world → Scaler world
  check_config_drift s =
      let (r, server) = get_model api s.active_model s.server in
      compare_with r (record s { server = server })

-- the body of the loop of startIdleChecker
unfoldable pub idle_check : (world : World) → ParseDuration → Config → Scaler world → Scaler world
idle_check world parse c s =
    let config = k8s_config c in
    let idle_time = pos (world.now s.server - s.last_activity) in
    let (r, server) = pod_exists world.api config s.server in
    if less_int (get_idle_timeout parse c) idle_time
    then stop_if world config r (record s { server = server })
    else s

-- the fields of a scaler that starts at some state of the server
unfoldable pub new_scaler : (world : World) → Config → world.api.Server → Scaler world
new_scaler world c server = record {
  server = server;
  last_activity = world.now server;
  active_model = c.model_id;
  is_scaling_up = false;
  events = [];
}

-- what NewAutoScaler makes of the answer of EnsureVLLMResources
abbrev pub started : (world : World) → Option Error → Scaler world → Result (Scaler world)
started world none s = ok s
started world (some e) s = err (wrap (codes "failed to ensure vLLM resources") e)

-- what it makes of the answer of GetModel
unfoldable pub start_with :
    (world : World) → Config → Result ModelConfig → Scaler world → Result (Scaler world)
start_with world c (ok m) s =
    let (e, server) = ensure_vllm_resources world.api (k8s_config c) s.server in
    started world e (record s { server = server })
start_with world c (err e) s =
    err (wrap (codes "failed to get model '" ++ c.model_id ++ codes "' from CRD") e)
start_with world c panic s = panic

abbrev pub start_if : Option Error → {A : Type 0} → Result A → Result A
start_if none r = r
start_if (some e) r = err (wrap (codes "invalid config") e)

-- NewAutoScaler, where the cluster's clients can be made. The clock is read before the API is called.
unfoldable pub new_auto_scaler :
    (world : World) → ParseDuration → Config → world.api.Server → Result (Scaler world)
new_auto_scaler world parse c server =
    let s = new_scaler world c server in
    let (r, server') = get_model world.api c.model_id server in
    start_if (validate parse c) (start_with world c r (record s { server = server' }))
