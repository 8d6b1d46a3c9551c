-- ===== src/Kubernetes/Models/Profiles.antt =====
-- pkg/kubernetes/models.go: valid profiles, and profiles as ConfigMap data.
use vllm_chill.Prelude.{[], ◌≡◌, ◌≢◌, ◌↔◌, refl, none, arith}
use vllm_chill.Kubernetes.Models.{
  ModelConfig, to_config_map_data, from_config_map_data, validate, is_empty,
}

-- Reading the data that a profile was written to gives the profile back.
pub from-to_config_map_data : (m : ModelConfig) → from_config_map_data (to_config_map_data m) ≡ m
unfolding from_config_map_data to_config_map_data
from-to_config_map_data m = refl

-- The fields that vLLM cannot start without. The two parsers are not among them.
pub record IsComplete (m : ModelConfig) : Type 0 where
  pub model_name : m.model_name ≢ []
  pub served_model_name : m.served_model_name ≢ []
  pub max_model_len : m.max_model_len ≢ []
  pub max_num_batched_tokens : m.max_num_batched_tokens ≢ []
  pub max_num_seqs : m.max_num_seqs ≢ []
  pub gpu_memory_utilization : m.gpu_memory_utilization ≢ []
  pub dtype : m.dtype ≢ []
  pub enable_chunked_prefill : m.enable_chunked_prefill ≢ []
  pub disable_custom_all_reduce : m.disable_custom_all_reduce ≢ []
  pub enable_prefix_caching : m.enable_prefix_caching ≢ []
  pub enable_auto_tool_choice : m.enable_auto_tool_choice ≢ []

validate-IsComplete : (m : ModelConfig) → validate m ≡ none → IsComplete m
unfolding validate is_empty
validate-IsComplete m h = ground arith

IsComplete-validate : (m : ModelConfig) → IsComplete m → validate m ≡ none
unfolding validate is_empty
IsComplete-validate m h = ground arith

-- A profile is accepted exactly when it is complete.
pub validate_iff : (m : ModelConfig) → (validate m ≡ none) ↔ IsComplete m
validate_iff m = (validate-IsComplete m, IsComplete-validate m)
