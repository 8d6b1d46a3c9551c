-- ===== src/Kubernetes/Pod.antt =====
-- The parts of the Kubernetes objects that pkg/kubernetes/k8s_manager.go writes and reads, and the
-- pod and the service that it builds.
pub mod Wiring
use vllm_chill.Prelude.{
  ℕ, Bytes, codes, Assoc, Option, none, some, List, [], ◌∷◌, Bool, true, false, ℤ, format_int,
}
use vllm_chill.Kubernetes.Config.{Config}
use vllm_chill.Kubernetes.Models.{ModelConfig}
use vllm_chill.Kubernetes.Args.{build_vllm_args, gpu_count_of}

pub data VolumeSource : Type 0 where
  -- the path, and the type of the host path
  host_path : Bytes → Bytes → VolumeSource
  -- the medium, and the size limit
  empty_dir : Bytes → Bytes → VolumeSource

pub record Volume : Type 0 where
  pub name : Bytes
  pub source : VolumeSource

pub record VolumeMount : Type 0 where
  pub name : Bytes
  pub mount_path : Bytes

pub record ContainerPort : Type 0 where
  pub name : Bytes
  pub container_port : ℕ

pub record Probe : Type 0 where
  pub path : Bytes
  pub port : Bytes
  pub headers : Assoc Bytes
  pub initial_delay_seconds : ℕ
  pub period_seconds : ℕ
  pub timeout_seconds : ℕ
  pub failure_threshold : ℕ

pub data EnvVar : Type 0 where
  plain : Bytes → Bytes → EnvVar
  -- the variable, the secret, its key, and whether the secret may be missing
  from_secret : Bytes → Bytes → Bytes → Bool → EnvVar

pub record Container : Type 0 where
  pub name : Bytes
  pub image : Bytes
  pub image_pull_policy : Bytes
  pub command : List Bytes
  pub args : List Bytes
  pub env : List EnvVar
  pub ports : List ContainerPort
  pub limits : Assoc Bytes
  pub requests : Assoc Bytes
  pub volume_mounts : List VolumeMount
  pub startup_probe : Option Probe
  pub readiness_probe : Option Probe
  pub liveness_probe : Option Probe

pub record PodSpec : Type 0 where
  pub termination_grace_period_seconds : ℕ
  pub volumes : List Volume
  pub containers : List Container

pub record Condition : Type 0 where
  pub kind : Bytes
  pub status : Bytes

pub record Pod : Type 0 where
  pub name : Bytes
  pub namespace : Bytes
  pub labels : Assoc Bytes
  pub spec : PodSpec
  pub phase : Bytes
  pub conditions : List Condition

pub record ServicePort : Type 0 where
  pub name : Bytes
  pub port : ℕ
  pub target_port : Bytes

pub record Service : Type 0 where
  pub name : Bytes
  pub namespace : Bytes
  pub labels : Assoc Bytes
  pub selector : Assoc Bytes
  pub ports : List ServicePort
  pub kind : Bytes

-- The probes of one container differ only in their times.
health_probe : ℕ → ℕ → ℕ → ℕ → Probe
health_probe delay period timeout threshold = record {
  path = codes "/health";
  port = codes "http";
  headers = (codes "Authorization", codes "Bearer $(VLLM_API_KEY)") ∷ [];
  initial_delay_seconds = delay;
  period_seconds = period;
  timeout_seconds = timeout;
  failure_threshold = threshold;
}

-- (*K8sManager).buildVLLMEnvVars
unfoldable pub build_vllm_env_vars : List EnvVar
build_vllm_env_vars =
    from_secret (codes "VLLM_API_KEY") (codes "vllm-api-key") (codes "api-key") false
    ∷ plain (codes "TORCH_CUDA_ARCH_LIST") (codes "8.6")
    ∷ plain (codes "VLLM_TORCH_COMPILE_CACHE_DIR") (codes "/root/.cache/vllm/torch_compile_cache")
    ∷ plain (codes "HF_HUB_ENABLE_HF_TRANSFER") (codes "1")
    ∷ plain (codes "OMP_NUM_THREADS") (codes "16")
    ∷ from_secret (codes "HF_TOKEN") (codes "hf-token-secret") (codes "token") true
    ∷ from_secret (codes "HUGGING_FACE_HUB_TOKEN") (codes "hf-token-secret") (codes "token") true
    ∷ []

-- (*K8sManager).buildPodSpec
unfoldable pub build_pod_spec : Config → ModelConfig → PodSpec
unfolding health_probe
build_pod_spec c m = record {
  termination_grace_period_seconds = 0;
  volumes =
      record {
        name = codes "hf-cache";
        source = host_path (codes "/home/manu/.cache/huggingface") (codes "DirectoryOrCreate");
      }
      ∷ record {
        name = codes "vllm-compile-cache";
        source = host_path (codes "/home/manu/.cache/vllm-compile") (codes "DirectoryOrCreate");
      }
      ∷ record { name = codes "shm"; source = empty_dir (codes "Memory") (codes "16Gi") }
      ∷ [];
  containers =
      record {
        name = codes "vllm";
        image = codes "vllm/vllm-openai:latest";
        image_pull_policy = codes "IfNotPresent";
        command = codes "python3" ∷ codes "-m" ∷ codes "vllm.entrypoints.openai.api_server" ∷ [];
        args = build_vllm_args c m;
        env = build_vllm_env_vars;
        ports =
            record { name = codes "http"; container_port = 8000 }
            ∷ record { name = codes "metrics"; container_port = 8001 }
            ∷ [];
        limits =
            (codes "memory", codes "64Gi")
            ∷ (codes "nvidia.com/gpu", format_int (gpu_count_of c))
            ∷ [];
        requests =
            (codes "memory", codes "32Gi")
            ∷ (codes "nvidia.com/gpu", format_int (gpu_count_of c))
            ∷ [];
        volume_mounts =
            record { name = codes "hf-cache"; mount_path = codes "/root/.cache/huggingface" }
            ∷ record { name = codes "vllm-compile-cache"; mount_path = codes "/root/.cache/vllm" }
            ∷ record { name = codes "shm"; mount_path = codes "/dev/shm" }
            ∷ [];
        startup_probe = some (health_probe 10 5 5 24);
        readiness_probe = some (health_probe 5 10 5 12);
        liveness_probe = some (health_probe 60 30 5 3);
      }
      ∷ [];
}

-- The labels of all objects of the manager.
unfoldable pub object_labels : Assoc Bytes
object_labels = (codes "app", codes "vllm") ∷ (codes "managed-by", codes "vllm-chill") ∷ []

-- The pod that CreatePod submits; the server fills in its status.
unfoldable pub pod_of : Config → ModelConfig → Pod
pod_of c m = record {
  name = c.deployment;
  namespace = c.namespace;
  labels = object_labels;
  spec = build_pod_spec c m;
  phase = [];
  conditions = [];
}

-- The service that ensureService submits.
unfoldable pub service_of : Config → Service
service_of c = record {
  name = codes "vllm-api";
  namespace = c.namespace;
  labels = object_labels;
  selector = (codes "app", codes "vllm") ∷ [];
  ports =
      record { name = codes "http"; port = 80; target_port = codes "http" }
      ∷ record { name = codes "metrics"; port = 8001; target_port = codes "metrics" }
      ∷ [];
  kind = codes "ClusterIP";
}
