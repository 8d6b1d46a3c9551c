-- ===== src/Proxy/Models/Served.antt =====
-- What the handlers of the models show.
use vllm_chill.Prelude.{Bytes, Bool, Result, ok, err, panic, ◌≡◌, sym}
use vllm_chill.Kubernetes.Config.{Config}
use vllm_chill.Kubernetes.Models.{ModelConfig}
use vllm_chill.Kubernetes.Models.Profiles.{IsComplete}
use vllm_chill.Kubernetes.Crd.{get_model}
use vllm_chill.Kubernetes.Crd.Lookup.{get_model-served}
use vllm_chill.Kubernetes.Manager.{pod_exists}
use vllm_chill.Proxy.Scaler.{World, Scaler}
use vllm_chill.Proxy.Models.{running, show_running, is_running, running_handler}

shown_profile :
    (active id : Bytes) (b c : Bool) (r : Result ModelConfig) (m : ModelConfig)
    → show_running active b r ≡ running id c m
    → (active ≡ id) × (b ≡ c) × (r ≡ ok m)
shown_profile active id b c (ok n) m h = (cc, cc, cc)
shown_profile active id b c (err e) m h = cc
shown_profile active id b c panic m h = cc

-- When RunningHandler shows a profile, it is that of the active model: its served name is the active
-- model's name, and it is complete. The flag says whether the pod exists.
pub running_handler-served :
    (world : World) (config : Config) (s : Scaler world) (id : Bytes) (b : Bool) (m : ModelConfig)
    → (running_handler world config s).0 ≡ running id b m
    → (id ≡ s.active_model)
      × (m.served_model_name ≡ s.active_model)
      × IsComplete m
      × (b ≡ is_running (pod_exists world.api config s.server).0)
unfolding running_handler
running_handler-served world config s id b m h =
    let (exists, server) = pod_exists world.api config s.server in
    let (same_id, same_flag, found) =
      shown_profile s.active_model id (is_running exists) b
        (get_model world.api s.active_model server).0 m h in
    let (name, complete) = get_model-served world.api s.active_model server m found in
    (sym same_id, name, complete, sym same_flag)
