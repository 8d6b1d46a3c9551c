-- ===== src/Kubernetes/Manager/Crash.antt =====
-- VerifyPodConfig and the profiles that have no tool call parser.
use vllm_chill.Prelude.{
  Bytes, codes, same_refl, true, Option, none, some, List, [], ◌∷◌, ◌++◌, ok, panic, Assoc, insert,
  append_assoc, format_int, if◌then◌else◌, ◌≡◌, refl, arith,
}
use vllm_chill.Kubernetes.Config.{Config}
use vllm_chill.Kubernetes.Models.{ModelConfig, is_empty}
use vllm_chill.Kubernetes.Args.{args_to_map, build_vllm_args, args_loop, switch, gpu_count_of}
use vllm_chill.Kubernetes.Args.Items.{starts_with_dash}
use vllm_chill.Kubernetes.Pod.{Pod, Container}
use vllm_chill.Kubernetes.Manager.{verify_reply, compare_maps}

-- An option whose value is the empty string stops argsToMap with a panic, wherever it stands.
empty_value_panics :
    (xs : List Bytes) (k : Bytes) (rest : List Bytes) (m : Assoc Bytes)
    → starts_with_dash k ≡ true
    → args_loop (xs ++ k ∷ [] ∷ rest) m ≡ none
unfolding args_loop
empty_value_panics [] [] rest m h = refl
empty_value_panics [] (d ∷ k) rest m h = ground arith
empty_value_panics ([] ∷ []) k rest m h = refl
empty_value_panics ((a ∷ s) ∷ []) [] rest m h = cc
empty_value_panics ((a ∷ s) ∷ []) (d ∷ k) rest m h = ground (
  arith,
  empty_value_panics [] (d ∷ k) rest m h,
  empty_value_panics [] (d ∷ k) rest (insert (a ∷ s) (codes "true") m) h,
)
empty_value_panics ([] ∷ b ∷ xs) k rest m h = refl
empty_value_panics ((a ∷ s) ∷ b ∷ xs) k rest m h = ground (
  arith,
  empty_value_panics (b ∷ xs) k rest m h,
  empty_value_panics (b ∷ xs) k rest (insert (a ∷ s) (codes "true") m) h,
  empty_value_panics xs k rest (insert (a ∷ s) b m) h,
)

args_before : Config → ModelConfig → List Bytes
args_before c m =
    (codes "--model"
      ∷ m.model_name
      ∷ codes "--served-model-name"
      ∷ m.served_model_name
      ∷ codes "--tensor-parallel-size"
      ∷ format_int (gpu_count_of c)
      ∷ codes "--max-model-len"
      ∷ m.max_model_len
      ∷ codes "--gpu-memory-utilization"
      ∷ m.gpu_memory_utilization
      ∷ [])
    ++ (switch m.enable_chunked_prefill (codes "--enable-chunked-prefill")
        ++ ((codes "--max-num-batched-tokens"
              ∷ m.max_num_batched_tokens
              ∷ codes "--max-num-seqs"
              ∷ m.max_num_seqs
              ∷ codes "--dtype"
              ∷ m.dtype
              ∷ [])
            ++ (switch m.disable_custom_all_reduce (codes "--disable-custom-all-reduce")
                ++ (switch m.enable_prefix_caching (codes "--enable-prefix-caching")
                    ++ ((codes "--cpu-offload-gb" ∷ format_int c.cpu_offload_gb ∷ [])
                        ++ switch m.enable_auto_tool_choice (codes "--enable-auto-tool-choice"))))))

args_after : ModelConfig → List Bytes
args_after m =
    (if is_empty m.reasoning_parser
      then []
      else codes "--reasoning-parser" ∷ m.reasoning_parser ∷ [])
    ++ (codes "--host"
        ∷ codes "0.0.0.0"
        ∷ codes "--port"
        ∷ codes "8000"
        ∷ codes "--api-key"
        ∷ codes "$(VLLM_API_KEY)"
        ∷ [])

build-split :
    (c : Config) (m : ModelConfig)
    → build_vllm_args c m
      ≡ args_before c m ++ codes "--tool-call-parser" ∷ m.tool_call_parser ∷ args_after m
build-split c m = unfold build_vllm_args args_before args_after in simp append_assoc

build-panics :
    (c : Config) (m : ModelConfig)
    → m.tool_call_parser ≡ []
    → args_to_map (build_vllm_args c m) ≡ none
unfolding args_to_map args_before args_after
build-panics c m h =
    rw (build-split, h)
      (empty_value_panics (args_before c m) (codes "--tool-call-parser") (args_after m) [] refl)

compare-none : (o : Option (Assoc Bytes)) → compare_maps o none ≡ panic
compare-none none = refl
compare-none (some m) = refl

-- A profile with no tool call parser, which Validate does not ask for, makes the check of any
-- running pod that has a container panic, whatever the pod's command line.
pub verify_panics :
    (c : Config) (m : ModelConfig) (p : Pod) (k : Container) (ks : List Container)
    → m.tool_call_parser ≡ []
    → p.phase ≡ codes "Running"
    → p.spec.containers ≡ k ∷ ks
    → verify_reply c m (ok p) ≡ panic
unfolding verify_reply
verify_panics c m p k ks h running containers =
    rw (running, same_refl (codes "Running"), containers, build-panics c m h)
      (compare-none (args_to_map k.args))
