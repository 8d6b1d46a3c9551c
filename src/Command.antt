-- ===== src/Command.antt =====
-- cmd/autoscaler/cmd/serve.go and root.go: the flags, their defaults from the environment, and the
-- start of the program up to the call of Run. What is logged is left out but for the target. The
-- parsing of the command line is cobra's: the flags are an argument.
pub mod Environment
pub mod Started
use vllm_chill.Prelude.{
  Bytes, codes, same, ◌++◌, Bool, true, Option, none, some, ℤ, pos, atoi, Error, Result, ok, err,
  panic, if◌then◌else◌,
}
use vllm_chill.Kubernetes.Models.{is_empty}
use vllm_chill.Rbac.{Access, verify_permissions}
use vllm_chill.Proxy.Config.{Config, ParseDuration}
use vllm_chill.Proxy.Scaler.{World, Scaler}
use vllm_chill.Proxy.Background.{new_auto_scaler}
use vllm_chill.Proxy.Server.{Build, Service, Environ, new_service, set_version, target_of}

-- getEnvOrDefault
unfoldable pub get_env_or_default : Environ → Bytes → Bytes → Bytes
get_env_or_default env key default_value = if is_empty (env key) then default_value else env key

-- getEnvOrDefaultInt
unfoldable pub get_env_or_default_int : Environ → Bytes → ℤ → ℤ
unfolding atoi
get_env_or_default_int env key default_value =
    if is_empty (env key)
    then default_value
    else elim (atoi (env key)) [ none ↦ default_value | some z ↦ z ]

-- The variables of the flags, which are the fields of the configuration, as they are when no flag is
-- given: the second function `init` of serve.go.
unfoldable pub default_flags : Environ → Config
unfolding get_env_or_default get_env_or_default_int same
default_flags env = record {
  namespace = get_env_or_default env (codes "VLLM_NAMESPACE") (codes "vllm");
  deployment = get_env_or_default env (codes "VLLM_DEPLOYMENT") (codes "vllm");
  config_map_name = get_env_or_default env (codes "VLLM_CONFIGMAP") (codes "vllm-config");
  idle_timeout = get_env_or_default env (codes "IDLE_TIMEOUT") (codes "5m");
  port = get_env_or_default env (codes "PORT") (codes "8080");
  log_output = same (get_env_or_default env (codes "LOG_OUTPUT") (codes "false")) (codes "true");
  model_id = get_env_or_default env (codes "MODEL_ID") (codes "");
  gpu_count = get_env_or_default_int env (codes "GPU_COUNT") (pos 2);
  cpu_offload_gb = get_env_or_default_int env (codes "CPU_OFFLOAD_GB") (pos 0);
  public_endpoint = get_env_or_default env (codes "PUBLIC_ENDPOINT") (codes "");
}

-- SetVersion of root.go: the text of --version, and what is passed on to the proxy
unfoldable pub version_text : Build → Bytes
version_text b =
    b.version
    ++ (codes " (commit: " ++ (b.commit ++ (codes ", built: " ++ (b.build_date ++ codes ")"))))

-- the target that is logged
unfoldable pub announced_target : Environ → Bytes
unfolding get_env_or_default
announced_target env =
    codes "http://"
    ++ (get_env_or_default env (codes "VLLM_TARGET") (codes "vllm-api")
        ++ (codes ":" ++ get_env_or_default env (codes "VLLM_PORT") (codes "80")))

module _ (world : World) (access : Access) (parse : ParseDuration) (env : Environ)
    (build : Build) where
  -- what RunE does with the scaler that NewAutoScaler makes
  abbrev pub serve_with : Result (Scaler world) → Result (Service world)
  serve_with (ok s) = ok (set_version world build (new_service world env s))
  serve_with (err e) = err e
  serve_with panic = panic

  -- the rest of RunE once the permissions are checked; the clients of the proxy see the cluster that
  -- the check left
  unfoldable pub serve_if : Config → Result (Unit {0}) → world.api.Server → Result (Service world)
  serve_if flags (ok u) cluster = serve_with (new_auto_scaler world parse flags cluster)
  serve_if flags (err e) cluster = err e
  serve_if flags panic cluster = panic

  -- RunE of serve, up to the call of Run
  unfoldable pub run_serve :
      (access.Server → world.api.Server) → Config → access.Server → Result (Service world)
  run_serve seen flags s =
      let (r, s') = verify_permissions access flags.namespace s in serve_if flags r (seen s')
