-- ===== src/Examples/Requests.antt =====
-- The theorems on the requests and on the scaler, at the cluster of Setup.
use vllm_chill.Prelude.{
  ℕ, codes, false, List, [], ◌∷◌, ◌≡◌, refl, same, Error, errorf, format_int, to_decimal,
  has_prefix,
}
use vllm_chill.Kubernetes.Models.{is_empty, validate, format_bool}
use vllm_chill.Kubernetes.Crd.{
  get_model, find_model, convert_to_model_config, config_of, list_models, convert_all,
  convert_unstructured,
}
use vllm_chill.Kubernetes.Manager.{get_pod, pod_exists, create_pod, delete_pod}
use vllm_chill.Proxy.Json.{get_field, find_field, as_map, as_text}
use vllm_chill.Proxy.Config.{k8s_config, get_idle_timeout}
use vllm_chill.Proxy.Background.{idle_check}
use vllm_chill.Proxy.Background.Interrupted.{long_request_is_cut}
use vllm_chill.Proxy.Scaler.{
  Scaler, request, activity, manage_pod, create_with, created, deleted, ensure_scaled_up,
  scale_up_if, wait_for_ready, wait_loop, is_ready, switch_model, switch_if, update_activity,
}
use vllm_chill.Proxy.Scaler.Lifecycle.{gauge, scaled_up-running}
use vllm_chill.Proxy.Scaler.Switching.{switch_model-active, active_after}
use vllm_chill.Proxy.Handler.{
  ModelInfo, available_models, requested_model, proxy_handler, handle, answer, serve, switch_to,
  handle_model_switch, list_infos, get_model_names, info_of,
}
use vllm_chill.Proxy.Handler.Routing.{forwarded_to_requested}
use vllm_chill.Proxy.Handler.Refusal.{unknown_is_refused}
use vllm_chill.Proxy.Handler.Overtaken.{switch_for, go_on, overtaken_request}
use vllm_chill.Examples.Setup.{
  cluster_config, proxy_config, five_minutes, small_world, idle_scaler, named_body, asking_for,
  differs,
}

-- The model "b" is asked for while the pod runs "a": the pod goes, and a new one comes.
abbrev answered : Scaler small_world
answered =
    (proxy_handler small_world cluster_config named_body (λ s. 200) (asking_for (codes "b"))
      (λ s. s) 3 (idle_scaler 1)).1

forwarded_to_requested_example :
    (answered.active_model ≡ requested_model named_body (asking_for (codes "b")))
    × (gauge answered.events ≡ 2)
    × (answered.is_scaling_up ≡ false)
unfolding proxy_handler handle answer serve requested_model has_prefix get_field find_field as_map
    as_text same update_activity handle_model_switch switch_to switch_model switch_if get_model
    find_model convert_to_model_config config_of validate is_empty format_bool format_int to_decimal
    get_pod pod_exists create_pod delete_pod manage_pod create_with created deleted ensure_scaled_up
    scale_up_if wait_for_ready wait_loop is_ready
forwarded_to_requested_example =
    forwarded_to_requested small_world cluster_config named_body (λ s. 200) (asking_for (codes "b"))
      (λ s. s) 3 (idle_scaler 1) 200 refl (λ h. cc) refl

scaled_up-running_example :
    (gauge (ensure_scaled_up small_world cluster_config (λ s. s) 3 (idle_scaler 1)).1.events ≡ 2)
    × ((ensure_scaled_up small_world cluster_config (λ s. s) 3 (idle_scaler 1)).1.is_scaling_up
        ≡ false)
unfolding ensure_scaled_up scale_up_if wait_for_ready wait_loop is_ready same get_pod pod_exists
scaled_up-running_example =
    scaled_up-running small_world cluster_config (λ s. s) 3 (idle_scaler 1) refl refl

switch_model-active_example :
    (switch_model small_world cluster_config (codes "b") (idle_scaler 1)).1.active_model
    ≡ active_after small_world cluster_config
        (codes "b")
        (switch_model small_world cluster_config (codes "b") (idle_scaler 1)).0
        (codes "a")
switch_model-active_example =
    switch_model-active small_world cluster_config (codes "b") (idle_scaler 1)

abbrev no_model_c : Error
no_model_c = errorf (codes "VLLMModel with servedModelName 'c' not found")

abbrev offers : List ModelInfo
offers =
    record {
      name = codes "model-of-a";
      served_model_name = codes "a";
      model_name = codes "a";
      max_model_len = codes "0";
    }
    ∷ record {
      name = codes "model-of-b";
      served_model_name = codes "b";
      model_name = codes "b";
      max_model_len = codes "0";
    }
    ∷ []

unknown_is_refused_example :
    let (reply, after) =
      proxy_handler small_world cluster_config named_body
        (λ s. 200)
        (asking_for (codes "c"))
        (λ s. s)
        3
        (idle_scaler 1) in
    (reply ≡ available_models (codes "c") (codes "model-of-a" ∷ codes "model-of-b" ∷ []))
    × (after.active_model ≡ codes "a")
    × (after.events ≡ activity 1 ∷ request (codes "POST") (codes "/v1/chat/completions") 404 0 ∷ [])
unfolding requested_model has_prefix get_field find_field as_map as_text same update_activity
    get_model find_model list_infos list_models convert_all convert_unstructured get_model_names
    info_of format_int to_decimal
unknown_is_refused_example =
    unknown_is_refused small_world cluster_config named_body (λ s. 200) (asking_for (codes "c"))
      (λ s. s) 3 (idle_scaler 1) no_model_c offers (λ h. cc) (differs (codes "c") (codes "a") refl)
      refl refl

-- the clock when the request has been answered for longer than the idle timeout
abbrev much_later : ℕ
much_later = 300000000002

abbrev in_flight : Scaler small_world
in_flight =
    record (handle small_world (k8s_config proxy_config) named_body (λ s. 200)
      (asking_for (codes "a")) (λ s. s) 3 (idle_scaler 1)).1 { server = much_later }

long_request_is_cut_example :
    let after = idle_check small_world five_minutes proxy_config in_flight in
    (gauge after.events ≡ 0) × (after.server ≡ 0)
unfolding handle answer serve requested_model has_prefix get_field find_field as_map as_text same
    update_activity handle_model_switch switch_to get_model is_empty get_pod pod_exists delete_pod
    ensure_scaled_up scale_up_if wait_for_ready wait_loop is_ready k8s_config get_idle_timeout
long_request_is_cut_example =
    long_request_is_cut small_world five_minutes proxy_config named_body (λ s. 200)
      (asking_for (codes "a")) (λ s. s) 3 (idle_scaler 1) 200 much_later refl refl refl refl refl

-- The model "a" is active and asked for; another request asks for "b" before the first one goes on.
overtaken_request_example :
    let first =
      (switch_for small_world cluster_config named_body
        (asking_for (codes "a"))
        (idle_scaler 1)).1 in
    let second =
      (switch_for small_world cluster_config named_body (asking_for (codes "b")) first).1 in
    let after =
      (go_on small_world cluster_config named_body
        (λ s. 200)
        (asking_for (codes "a"))
        (λ s. s)
        3
        second).1 in
    (after.active_model ≡ requested_model named_body (asking_for (codes "b")))
    × (gauge after.events ≡ 2)
unfolding handle_model_switch requested_model answer serve has_prefix get_field find_field as_map
    as_text same switch_to switch_model switch_if get_model find_model convert_to_model_config
    config_of validate is_empty format_bool format_int to_decimal get_pod pod_exists create_pod
    delete_pod manage_pod create_with created deleted ensure_scaled_up scale_up_if wait_for_ready
    wait_loop is_ready
overtaken_request_example =
    overtaken_request small_world cluster_config named_body (λ s. 200) (asking_for (codes "a"))
      (asking_for (codes "b")) (λ s. s) 3 (idle_scaler 1) 200 refl refl refl refl
