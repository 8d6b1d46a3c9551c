-- ===== src/Kubernetes/Args.antt =====
-- pkg/kubernetes/k8s_manager.go: the command line of vLLM and its reading back into a map.
pub mod Items
pub mod Command
pub mod Settings
use vllm_chill.Prelude.{
  Bytes, codes, same, ◌==◌, Assoc, insert, Option, none, some, List, [], ◌∷◌, ◌++◌, ℤ, pos, is_zero,
  format_int, if◌then◌else◌,
}
use vllm_chill.Kubernetes.Config.{Config}
use vllm_chill.Kubernetes.Models.{ModelConfig, is_empty}

-- The GPU count of the configuration, two if it is not set.
unfoldable pub gpu_count_of : Config → ℤ
gpu_count_of c = if is_zero c.gpu_count then pos 2 else c.gpu_count

-- The flag if its profile field is "true".
unfoldable pub switch : Bytes → Bytes → List Bytes
unfolding same
switch field flag = if same field (codes "true") then flag ∷ [] else []

-- (*K8sManager).buildVLLMArgs
unfoldable pub build_vllm_args : Config → ModelConfig → List Bytes
unfolding switch gpu_count_of format_int is_empty
build_vllm_args c m =
    (codes "--model"
      ∷ m.model_name
      ∷ codes "--served-model-name"
      ∷ m.served_model_name
      ∷ codes "--tensor-parallel-size"
      ∷ format_int (gpu_count_of c)
      ∷ codes "--max-model-len"
      ∷ m.max_model_len
      ∷ codes "--gpu-memory-utilization"
      ∷ m.gpu_memory_utilization
      ∷ [])
    ++ (switch m.enable_chunked_prefill (codes "--enable-chunked-prefill")
        ++ ((codes "--max-num-batched-tokens"
              ∷ m.max_num_batched_tokens
              ∷ codes "--max-num-seqs"
              ∷ m.max_num_seqs
              ∷ codes "--dtype"
              ∷ m.dtype
              ∷ [])
            ++ (switch m.disable_custom_all_reduce (codes "--disable-custom-all-reduce")
                ++ (switch m.enable_prefix_caching (codes "--enable-prefix-caching")
                    ++ ((codes "--cpu-offload-gb" ∷ format_int c.cpu_offload_gb ∷ [])
                        ++ (switch m.enable_auto_tool_choice (codes "--enable-auto-tool-choice")
                            ++ ((codes "--tool-call-parser" ∷ m.tool_call_parser ∷ [])
                                ++ ((if is_empty m.reasoning_parser
                                      then []
                                      else codes "--reasoning-parser" ∷ m.reasoning_parser ∷ [])
                                    ++ (codes "--host"
                                        ∷ codes "0.0.0.0"
                                        ∷ codes "--port"
                                        ∷ codes "8000"
                                        ∷ codes "--api-key"
                                        ∷ codes "$(VLLM_API_KEY)"
                                        ∷ [])))))))))

-- `s[0] == '-'`: `none` is the panic of an index out of range.
abbrev pub on_dash {ℓ} : {A : Type ℓ} → Bytes → Option A → Option A → Option A
on_dash [] dash other = none
on_dash (c ∷ s) dash other = if c == b'-' then dash else other

-- The loop of argsToMap over the arguments from `i` on.
unfoldable pub args_loop : List Bytes → Assoc Bytes → Option (Assoc Bytes)
args_loop [] m = some m
args_loop (a ∷ []) m = on_dash a (some (insert a (codes "true") m)) (some m)
args_loop (a ∷ b ∷ rest) m =
    let paired = args_loop rest (insert a b m) in
    let flagged = args_loop (b ∷ rest) (insert a (codes "true") m) in
    let skipped = args_loop (b ∷ rest) m in on_dash a (on_dash b flagged paired) skipped

-- argsToMap
unfoldable pub args_to_map : List Bytes → Option (Assoc Bytes)
unfolding args_loop
args_to_map args = args_loop args []
