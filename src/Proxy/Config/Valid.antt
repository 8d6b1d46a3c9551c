-- ===== src/Proxy/Config/Valid.antt =====
-- When a configuration is accepted.
use vllm_chill.Prelude.{[], ◌≡◌, ◌≢◌, ◌↔◌, none, arith}
use vllm_chill.Kubernetes.Models.{is_empty}
use vllm_chill.Proxy.Config.{Config, ParseDuration, validate}

-- The names are given and the idle timeout is a duration.
pub record IsUsable (parse : ParseDuration) (c : Config) : Type 0 where
  pub namespace : c.namespace ≢ []
  pub deployment : c.deployment ≢ []
  pub config_map_name : c.config_map_name ≢ []
  pub idle_timeout : (parse c.idle_timeout).1 ≡ none
  pub model_id : c.model_id ≢ []

-- A configuration is accepted exactly when it is usable.
pub config-validate_iff :
    (parse : ParseDuration) (c : Config) → (validate parse c ≡ none) ↔ IsUsable parse c
unfolding validate is_empty
config-validate_iff parse c = (λ h. ground arith, λ h. ground arith)
