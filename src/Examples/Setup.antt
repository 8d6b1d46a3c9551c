-- ===== src/Examples/Setup.antt =====
-- A profile, a configuration, a cluster with one pod, and an environment for the writer.
use vllm_chill.Prelude.{
  ℕ, zero, suc, Bytes, codes, same, same_iff, arith, ◌≡◌, ◌≢◌, true, false, none, some, [], ◌∷◌,
  pos, Error, Result, ok, err, ◌++◌,
}
use vllm_chill.Kubernetes.Models.{ModelConfig}
use vllm_chill.Kubernetes.Config.{Config as K8sConfig}
use vllm_chill.Kubernetes.Pod.{Pod, Container, build_pod_spec}
use vllm_chill.Kubernetes.Api.{Api}
use vllm_chill.Proxy.Json.{str, obj, end, field}
use vllm_chill.Proxy.Config.{Config, ParseDuration}
use vllm_chill.Proxy.Scaler.{World, Scaler}
use vllm_chill.Proxy.Handler.{Request, Unmarshal}

pub differs : (s t : Bytes) → same s t ≡ false → s ≢ t
differs s t h = ground (arith, same_iff s t)

abbrev pub qwen : ModelConfig
qwen = record {
  model_name = codes "org/qwen";
  served_model_name = codes "qwen";
  tool_call_parser = codes "hermes";
  reasoning_parser = [];
  max_model_len = codes "4096";
  gpu_memory_utilization = codes "0.90";
  enable_chunked_prefill = codes "true";
  max_num_batched_tokens = codes "2048";
  max_num_seqs = codes "8";
  dtype = codes "auto";
  disable_custom_all_reduce = codes "false";
  enable_prefix_caching = codes "true";
  enable_auto_tool_choice = codes "true";
}

abbrev pub longer_qwen : ModelConfig
longer_qwen = record qwen { max_model_len = codes "8192" }

abbrev pub mute_qwen : ModelConfig
mute_qwen = record qwen { tool_call_parser = [] }

abbrev pub cluster_config : K8sConfig
cluster_config = record {
  namespace = codes "vllm";
  deployment = codes "vllm";
  config_map_name = codes "vllm-config";
  gpu_count = pos 2;
  cpu_offload_gb = pos 0;
}

abbrev pub proxy_config : Config
proxy_config = record {
  namespace = codes "vllm";
  deployment = codes "vllm";
  config_map_name = codes "vllm-config";
  idle_timeout = codes "5m";
  port = codes "8080";
  log_output = false;
  model_id = codes "a";
  gpu_count = pos 2;
  cpu_offload_gb = pos 0;
  public_endpoint = [];
}

-- every text is five minutes
abbrev pub five_minutes : ParseDuration
five_minutes = λ s. (pos 300000000000, none)

abbrev pub not_there : Error
not_there = record { not_found = true; message = codes "not found" }

-- a running pod that is ready
abbrev pub ready_pod : Pod
ready_pod = record {
  name = codes "vllm";
  namespace = codes "vllm";
  labels = [];
  spec = build_pod_spec cluster_config qwen;
  phase = codes "Running";
  conditions = record { kind = codes "Ready"; status = codes "True" } ∷ [];
}

abbrev pub bare_container : Container
bare_container = record {
  name = codes "vllm";
  image = codes "vllm/vllm-openai";
  image_pull_policy = codes "Always";
  command = [];
  args = codes "--model" ∷ codes "org/qwen" ∷ [];
  env = [];
  ports = [];
  limits = [];
  requests = [];
  volume_mounts = [];
  startup_probe = none;
  readiness_probe = none;
  liveness_probe = none;
}

abbrev pub bare_pod : Pod
bare_pod = record {
  name = codes "vllm";
  namespace = codes "vllm";
  labels = [];
  spec = record (build_pod_spec cluster_config qwen) { containers = bare_container ∷ [] };
  phase = codes "Running";
  conditions = [];
}

abbrev pub served_b : ModelConfig
served_b = record {
  model_name = codes "b";
  served_model_name = codes "b";
  tool_call_parser = codes "b";
  reasoning_parser = codes "b";
  max_model_len = codes "7";
  gpu_memory_utilization = codes "1.00";
  enable_chunked_prefill = codes "true";
  max_num_batched_tokens = codes "7";
  max_num_seqs = codes "7";
  dtype = codes "b";
  disable_custom_all_reduce = codes "true";
  enable_prefix_caching = codes "true";
  enable_auto_tool_choice = codes "true";
}

-- the pod of a server that has as many pods as the number
abbrev pub answer_pod : ℕ → Result Pod
answer_pod zero = err not_there
answer_pod (suc n) = ok ready_pod

-- An API with at most one pod, and two models: an object is its served name.
abbrev pub small_api : Api
small_api = record {
  Server = ℕ;
  Object = Bytes;
  Spec = Bytes;
  Float = ℕ;
  get_pod = λ ns name s. (answer_pod s, s);
  create_pod = λ ns p s. (none, 1);
  delete_pod = λ ns name s. (none, 0);
  get_service = λ ns name s. (some not_there, s);
  create_service = λ ns v s. (none, s);
  list_objects = λ s. (ok (codes "a" ∷ codes "b" ∷ []), s);
  name = λ u. codes "model-of-" ++ u;
  namespace = λ u. codes "vllm";
  api_version = λ u. codes "v1alpha1";
  kind = λ u. codes "VLLMModel";
  nested_map = λ u f. some u;
  nested_string = λ s f. some s;
  nested_int = λ s f. some (pos 7);
  nested_bool = λ s f. some true;
  nested_float = λ s f. some 1;
  format_float = λ x. codes "1.00";
}

abbrev pub small_world : World
small_world = record { api = small_api; now = λ s. s }

-- the model "a" is active, with as many pods as the number
abbrev pub idle_scaler : ℕ → Scaler small_world
idle_scaler pods = record {
  server = pods;
  last_activity = 0;
  active_model = codes "a";
  is_scaling_up = false;
  events = [];
}

-- a body is the name of the model that it asks for
abbrev pub named_body : Unmarshal
named_body = λ b. some (obj (field (codes "model") (str b) end))

abbrev pub asking_for : Bytes → Request
asking_for m = record {
  method = codes "POST";
  path = codes "/v1/chat/completions";
  body = some (some m);
}
