-- ===== src/Examples/Checks.antt =====
-- The theorems on the start, the background goroutines, the permissions and the recorder.
use vllm_chill.Prelude.{ℕ, codes, false, [], ◌∷◌, ok, ◌≡◌, ◌↔◌, refl, same, format_int, to_decimal}
use vllm_chill.Kubernetes.Models.{is_empty, validate as validate_model, format_bool}
use vllm_chill.Kubernetes.Crd.{get_model, find_model, convert_to_model_config, config_of}
use vllm_chill.Kubernetes.Manager.{ensure_vllm_resources, ensure_service}
use vllm_chill.Proxy.Config.{validate, k8s_config}
use vllm_chill.Proxy.Scaler.{Scaler}
use vllm_chill.Proxy.Background.{new_auto_scaler, new_scaler, start_with, idle_check}
use vllm_chill.Proxy.Background.Sequential.{Reach, start, step, idling, answering, Reach-idle}
use vllm_chill.Proxy.Handler.{proxy_handler}
use vllm_chill.Rbac.{Access, verify_permissions, get_required_permissions}
use vllm_chill.Rbac.Granted.{IsGranted, IsCrdEstablished, verify_permissions_iff}
use vllm_chill.Examples.Setup.{
  cluster_config, proxy_config, five_minutes, small_world, idle_scaler, named_body, asking_for,
}

begins : new_auto_scaler small_world five_minutes proxy_config 0 ≡ ok (idle_scaler 0)
unfolding new_auto_scaler new_scaler start_with validate is_empty get_model find_model
    convert_to_model_config config_of validate_model same format_bool format_int to_decimal
    ensure_vllm_resources ensure_service
begins = refl

-- a request for "b", then a tick of the idle checker
abbrev one_request : Scaler small_world
one_request =
    (proxy_handler small_world cluster_config named_body (λ s. 200) (asking_for (codes "b"))
      (λ s. s) 3 (idle_scaler 0)).1

reaches_request : Reach small_world five_minutes proxy_config named_body one_request
unfolding k8s_config
reaches_request =
    step (idle_scaler 0) one_request (start 0 (idle_scaler 0) begins)
      (answering (λ s. 200) (asking_for (codes "b")) (λ s. s) 3 (idle_scaler 0))

Reach-idle_example :
    (idle_check small_world five_minutes proxy_config one_request).is_scaling_up ≡ false
Reach-idle_example =
    Reach-idle small_world five_minutes proxy_config named_body
      (idle_check small_world five_minutes proxy_config one_request)
      (step one_request (idle_check small_world five_minutes proxy_config one_request)
        reaches_request (idling one_request))

-- a cluster that grants everything but deletions
abbrev strict : Access
strict = record {
  Server = ℕ;
  get_crd = λ n s. (ok (record { kind = codes "Established"; status = codes "True" } ∷ []), s);
  review = λ p s. (ok (same p.verb (codes "get")), s);
}

verify_permissions_iff_example :
    ((verify_permissions strict (codes "vllm") 0).0 ≡ ok tt)
    ↔ (IsCrdEstablished strict 0 × IsGranted strict (get_required_permissions (codes "vllm")) 0)
verify_permissions_iff_example = verify_permissions_iff strict (codes "vllm") 0
