-- ===== src/Proxy/Config.antt =====
-- pkg/proxy/config.go.
pub mod Valid
use vllm_chill.Prelude.{
  Bytes, codes, Bool, Option, none, some, ℤ, Error, errorf, wrap, if◌then◌else◌,
}
use vllm_chill.Kubernetes.Models.{is_empty}
use vllm_chill.Kubernetes.Config.{Config as K8sConfig}

pub record Config : Type 0 where
  pub namespace : Bytes
  pub deployment : Bytes
  pub config_map_name : Bytes
  pub idle_timeout : Bytes
  pub port : Bytes
  pub log_output : Bool
  pub model_id : Bytes
  pub gpu_count : ℤ
  pub cpu_offload_gb : ℤ
  pub public_endpoint : Bytes

-- time.ParseDuration: a duration or an error.
abbrev pub ParseDuration : Type 0
ParseDuration = Bytes → ℤ × Option Error

-- the checks of Validate behind the idle timeout
abbrev pub check_timeout : Option Error → Bytes → Option Error
check_timeout (some e) id = some (wrap (codes "invalid idle timeout") e)
check_timeout none id =
    if is_empty id then some (errorf (codes "model ID cannot be empty")) else none

-- (*Config).Validate
unfoldable pub validate : ParseDuration → Config → Option Error
validate parse c =
    if is_empty c.namespace
    then some (errorf (codes "namespace cannot be empty"))
    else if is_empty c.deployment
    then some (errorf (codes "deployment cannot be empty"))
    else if is_empty c.config_map_name
    then some (errorf (codes "configmap name cannot be empty"))
    else check_timeout (parse c.idle_timeout).1 c.model_id

-- (*Config).GetIdleTimeout
unfoldable pub get_idle_timeout : ParseDuration → Config → ℤ
get_idle_timeout parse c = (parse c.idle_timeout).0

-- the configuration that NewAutoScaler hands to the Kubernetes manager
unfoldable pub k8s_config : Config → K8sConfig
k8s_config c = record {
  namespace = c.namespace;
  deployment = c.deployment;
  config_map_name = c.config_map_name;
  gpu_count = c.gpu_count;
  cpu_offload_gb = c.cpu_offload_gb;
}
