-- ===== src/Proxy/Background/Effects.antt =====
-- What the background goroutines change.
use vllm_chill.Prelude.{
  ℕ, ◌-◌, pos, less_int, Option, none, some, Error, Bool, true, false, Result, ok, err, panic, ◌≡◌,
  refl, arith,
}
use vllm_chill.Kubernetes.Config.{Config as K8sConfig}
use vllm_chill.Kubernetes.Models.{ModelConfig}
use vllm_chill.Kubernetes.Crd.{get_model}
use vllm_chill.Kubernetes.Manager.{pod_exists, delete_pod, verify_pod_config}
use vllm_chill.Proxy.Config.{Config, ParseDuration, k8s_config, get_idle_timeout}
use vllm_chill.Proxy.Scaler.{
  World, Scaler, vllm_state, log_event, deleted, manage_pod, update_activity,
}
use vllm_chill.Proxy.Scaler.Lifecycle.{gauge, deleted-gauge}
use vllm_chill.Proxy.Scaler.Switching.{manage_pod-active, delete-idle}
use vllm_chill.Proxy.Background.{
  stop_if, delete_if, restart_pod, restart_unless, compare_with, check_config_drift, idle_check,
}

-- The fields of the scaler, all but the state of the server, agree.
abbrev pub SameScaler : (world : World) → Scaler world → Scaler world → Type 0
SameScaler world s t =
    (s.last_activity ≡ t.last_activity)
    × (s.active_model ≡ t.active_model)
    × (s.is_scaling_up ≡ t.is_scaling_up)
    × (s.events ≡ t.events)

module _ (world : World) (config : K8sConfig) where
  open world use {api}

  delete_if-same :
      (r : Result Bool) (s : Scaler world) → SameScaler world (delete_if world config r s) s
  delete_if-same (ok true) s = (refl, refl, refl, refl)
  delete_if-same (ok false) s = (refl, refl, refl, refl)
  delete_if-same (err e) s = (refl, refl, refl, refl)
  delete_if-same panic s = (refl, refl, refl, refl)

  pub restart_pod-same : (s : Scaler world) → SameScaler world (restart_pod world config s) s
  unfolding restart_pod
  restart_pod-same s =
      let (r, server) = pod_exists api config s.server in
      delete_if-same r (record s { server = server })

  restart_unless-same :
      (r : Result Bool) (s : Scaler world) → SameScaler world (restart_unless world config r s) s
  restart_unless-same (ok true) s = (refl, refl, refl, refl)
  restart_unless-same (ok false) s = restart_pod-same s
  restart_unless-same (err e) s = (refl, refl, refl, refl)
  restart_unless-same panic s = (refl, refl, refl, refl)

  compare_with-same :
      (r : Result ModelConfig) (s : Scaler world)
      → SameScaler world (compare_with world config r s) s
  unfolding compare_with
  compare_with-same (ok m) s =
      let (r, server) = verify_pod_config api config m s.server in
      restart_unless-same r (record s { server = server })
  compare_with-same (err e) s = (refl, refl, refl, refl)
  compare_with-same panic s = (refl, refl, refl, refl)

  -- The drift check changes nothing but the cluster: when it deletes the pod, the recorder is not
  -- told, and neither the active model nor the activity changes.
  pub check_config_drift-unrecorded :
      (s : Scaler world) → SameScaler world (check_config_drift world config s) s
  unfolding check_config_drift
  check_config_drift-unrecorded s =
      let (r, server) = get_model api s.active_model s.server in
      compare_with-same r (record s { server = server })

  pub stop_if-keeps :
      (r : Result Bool) (s : Scaler world)
      → ((stop_if world config r s).active_model ≡ s.active_model)
        × ((stop_if world config r s).is_scaling_up ≡ s.is_scaling_up)
  stop_if-keeps (ok true) s = (manage_pod-active world config false s, delete-idle world config s)
  stop_if-keeps (ok false) s = (refl, refl)
  stop_if-keeps (err e) s = (refl, refl)
  stop_if-keeps panic s = (refl, refl)

pub idle_check-keeps :
    (world : World) (parse : ParseDuration) (c : Config) (s : Scaler world)
    → ((idle_check world parse c s).active_model ≡ s.active_model)
      × ((idle_check world parse c s).is_scaling_up ≡ s.is_scaling_up)
unfolding idle_check
idle_check-keeps world parse c s =
    let (r, server) = pod_exists world.api (k8s_config c) s.server in
    ground (arith, stop_if-keeps world (k8s_config c) r (record s { server = server }))

module _ (world : World) (config : K8sConfig) where
  open world use {api}

  deleted-none :
      (start : ℕ) (e : Option Error) (s : Scaler world)
      → e ≡ none
      → let after = (deleted world config start e s).1 in
        (gauge after.events ≡ 0) × (after.server ≡ s.server)
  unfolding deleted
  deleted-none start none s h = (deleted-gauge world config start none s, refl)
  deleted-none start (some e) s h = cc

  stopped :
      (s : Scaler world)
      → (delete_pod api config s.server).0 ≡ none
      → let after = (manage_pod world config false s).1 in
        (gauge after.events ≡ 0) × (after.server ≡ (delete_pod api config s.server).1)
  unfolding manage_pod
  stopped s gone =
      let s' = log_event world config (vllm_state 3) s in
      let (e, server) = delete_pod api config s'.server in
      deleted-none (world.now s.server) e (record s' { server = server }) gone

-- A service that was used is kept: at a tick that comes no later after an activity than the idle
-- timeout, the idle checker changes nothing, whatever the state of the cluster.
pub active_is_kept :
    (world : World) (parse : ParseDuration) (c : Config) (s : Scaler world)
    (server : world.api.Server)
    → less_int (get_idle_timeout parse c) (pos (world.now server - world.now s.server)) ≡ false
    → let used = record (update_activity world (k8s_config c) s) { server = server } in
      idle_check world parse c used ≡ used
unfolding idle_check update_activity
active_is_kept world parse c s server early = rw early

-- A service that has been idle for longer than the timeout is stopped: if the pod exists and the
-- cluster deletes it, the recorder shows 0, stopped, and the cluster is as the deletion left it.
pub idle_is_stopped :
    (world : World) (parse : ParseDuration) (c : Config) (s : Scaler world)
    → less_int (get_idle_timeout parse c) (pos (world.now s.server - s.last_activity)) ≡ true
    → (pod_exists world.api (k8s_config c) s.server).0 ≡ ok true
    → let (e, left) =
        delete_pod world.api (k8s_config c) (pod_exists world.api (k8s_config c) s.server).1 in
      e ≡ none
      → (gauge (idle_check world parse c s).events ≡ 0)
        × ((idle_check world parse c s).server ≡ left)
unfolding idle_check
idle_is_stopped world parse c s late there gone =
    let server = (pod_exists world.api (k8s_config c) s.server).1 in
    rw (late, there) (stopped world (k8s_config c) (record s { server = server }) gone)
