-- ===== src/Kubernetes/Config.antt =====
-- pkg/kubernetes/config.go.
use vllm_chill.Prelude.{Bytes, ℤ}

pub record Config : Type 0 where
  pub namespace : Bytes
  pub deployment : Bytes
  pub config_map_name : Bytes
  pub gpu_count : ℤ
  pub cpu_offload_gb : ℤ
