-- ===== src/Proxy/Watch.antt =====
-- The goroutine of WatchModel (pkg/kubernetes/crd_client.go) with the callback of startModelWatch
-- (pkg/proxy/autoscaler.go): one step for each thing that its select receives.
pub mod Restarted
pub mod Lost
use vllm_chill.Prelude.{
  ℕ, zero, suc, Bytes, Bool, true, false, List, [], ◌∷◌, Error, Result, ok, err, panic, All, ◌≡◌,
  refl, ap, ◌∙◌,
}
use vllm_chill.Kubernetes.Config.{Config as K8sConfig}
use vllm_chill.Kubernetes.Watch.{WatchApi, watch_model}
use vllm_chill.Proxy.Scaler.{World, Scaler}
use vllm_chill.Proxy.Background.{restart_pod}

-- The type of an event of the watch.
pub data EventType : Type 0 where
  added modified deleted bookmark error : EventType

-- What the select receives: the end of the context, the end of the channel, or an event.
pub data Signal : Type 0 where
  cancelled : Signal
  closed : Signal
  event : EventType → Signal

-- Whether a goroutine still watches.
abbrev pub Watching : Type 0
Watching = Bool

module _ (world : World) (watch_api : WatchApi world.api) (config : K8sConfig) where
  abbrev restarted : Scaler world → Result (Unit {0}) × world.api.Server → Watching × Scaler world
  restarted s (ok u, server) = (true, record s { server = server })
  restarted s (err e, server) = (false, record s { server = server })
  -- a panic ends the program
  restarted s (panic, server) = (false, record s { server = server })

  -- the body of the loop
  unfoldable pub receive : Bytes → Signal → Scaler world → Watching × Scaler world
  receive model cancelled s = (false, s)
  receive model closed s = restarted s (watch_model world.api watch_api model s.server)
  receive model (event modified) s = (true, restart_pod world config s)
  receive model (event e) s = (true, s)

  -- the loop; who does not watch receives nothing
  unfoldable pub watch_run : Bytes → List Signal → Watching × Scaler world → Watching × Scaler world
  unfolding receive
  watch_run model [] r = r
  watch_run model (x ∷ xs) (false, s) = watch_run model xs (false, s)
  watch_run model (x ∷ xs) (true, s) = watch_run model xs (receive model x s)

  -- startModelWatch: the goroutine runs only if the watch could be started
  unfoldable pub start_model_watch : Scaler world → Watching × Scaler world
  start_model_watch s = restarted s (watch_model world.api watch_api s.active_model s.server)
