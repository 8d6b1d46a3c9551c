-- ===== src/Examples/Serving.antt =====
-- The start of the program, from an environment.
use vllm_chill.Prelude.{
  ℕ, codes, same, true, ok, [], ◌∷◌, ◌≡◌, refl, format_int, if◌then◌else◌, to_decimal,
}
use vllm_chill.Kubernetes.Models.{is_empty, format_bool, validate as validate_model}
use vllm_chill.Kubernetes.Crd.{get_model, find_model, convert_to_model_config, config_of}
use vllm_chill.Kubernetes.Manager.{ensure_vllm_resources, ensure_service}
use vllm_chill.Rbac.{
  Access, is_established, verify_permissions, verify_crd_exists, missing_permissions,
  get_required_permissions,
}
use vllm_chill.Proxy.Config.{validate}
use vllm_chill.Proxy.Background.{new_auto_scaler, new_scaler, start_with}
use vllm_chill.Proxy.Server.{Environ, Build, Service, new_service, set_version, target_of}
use vllm_chill.Command.{run_serve, serve_if}
use vllm_chill.Command.Started.{IsStarted, run_serve-IsStarted}
use vllm_chill.Examples.Setup.{proxy_config, five_minutes, small_world, idle_scaler}

-- GPU_COUNT is 4, nothing else is set.
abbrev four_cards : Environ
four_cards key = if same key (codes "GPU_COUNT") then codes "4" else []

-- A cluster that grants everything.
abbrev lenient : Access
lenient = record {
  Server = ℕ;
  get_crd = λ n s. (ok (record { kind = codes "Established"; status = codes "True" } ∷ []), s);
  review = λ p s. (ok true, s);
}

abbrev release : Build
release = record {
  version = codes "1.0.0";
  commit = codes "abc123";
  build_date = codes "2023-01-01";
}

abbrev serving : Service small_world
serving = record { scaler = idle_scaler 0; target_url = codes "http://vllm:80"; build = release }

starts :
    run_serve small_world lenient five_minutes four_cards release (λ s. s) proxy_config 0
    ≡ ok serving
unfolding run_serve serve_if verify_permissions verify_crd_exists missing_permissions
    get_required_permissions is_established new_service set_version target_of new_auto_scaler
    new_scaler start_with validate is_empty get_model find_model convert_to_model_config config_of
    validate_model same format_bool format_int to_decimal ensure_vllm_resources ensure_service
starts = refl

run_serve-IsStarted_example :
    ((verify_permissions lenient (codes "vllm") 0).0 ≡ ok tt)
    × IsStarted small_world lenient five_minutes four_cards release proxy_config
        (verify_permissions lenient (codes "vllm") 0).1
        serving
run_serve-IsStarted_example =
    run_serve-IsStarted small_world lenient five_minutes four_cards release (λ s. s) proxy_config 0
      serving starts
