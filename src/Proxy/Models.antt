-- ===== src/Proxy/Models.antt =====
-- pkg/models/handler.go: the handlers that show the models, over the operations of the autoscaler that
-- they ask for (GetActiveModel, IsRunning, GetModelConfig and ListModels of pkg/proxy/autoscaler.go).
pub mod Served
use vllm_chill.Prelude.{
  ℕ, Bytes, codes, Bool, true, false, List, ◌++◌, length, Result, ok, err, panic,
}
use vllm_chill.Kubernetes.Config.{Config}
use vllm_chill.Kubernetes.Models.{ModelConfig}
use vllm_chill.Kubernetes.Crd.{get_model}
use vllm_chill.Kubernetes.Manager.{pod_exists}
use vllm_chill.Proxy.Scaler.{World, Scaler}
use vllm_chill.Proxy.Handler.{ModelInfo, list_infos}

-- The replies that they give.
pub data Shown : Type 0 where
  -- 200, the models and their count
  models : List ModelInfo → ℕ → Shown
  -- 200, the active model, whether it runs, and its profile, of which five fields are shown
  running : Bytes → Bool → ModelConfig → Shown
  -- 500, with a message
  failure : Bytes → Shown
  -- the handler panicked
  crash : Shown

-- IsRunning, by the answer of podExists
abbrev pub is_running : Result Bool → Bool
is_running (ok b) = b
is_running (err e) = false
is_running panic = false

abbrev pub show_models : Result (List ModelInfo) → Shown
show_models (ok ms) = models ms (length ms)
show_models (err e) = failure (codes "Failed to list models: " ++ e.message)
show_models panic = crash

abbrev pub show_running : Bytes → Bool → Result ModelConfig → Shown
show_running active b (ok m) = running active b m
show_running active b (err e) = failure (codes "Failed to get model config: " ++ e.message)
show_running active b panic = crash

module _ (world : World) (config : Config) where
  open world use {api}

  -- AvailableHandler
  unfoldable pub available_handler : Scaler world → Shown × Scaler world
  available_handler s = let (r, s') = list_infos world config s in (show_models r, s')

  -- RunningHandler
  unfoldable pub running_handler : Scaler world → Shown × Scaler world
  running_handler s =
      let (exists, server) = pod_exists api config s.server in
      let (r, server') = get_model api s.active_model server in
      (show_running s.active_model (is_running exists) r, record s { server = server' })
