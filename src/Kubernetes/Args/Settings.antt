-- ===== src/Kubernetes/Args/Settings.antt =====
-- Each setting of a profile under its name in the map of the options of its command line.
use vllm_chill.Prelude.{
  Bytes, codes, same, get_or_empty, false, Option, none, List, [], ◌∷◌, ◌++◌, ◌≡◌, refl, arith,
  format_int,
}
use vllm_chill.Kubernetes.Config.{Config}
use vllm_chill.Kubernetes.Models.{ModelConfig}
use vllm_chill.Kubernetes.Args.Items.{Item, pair, flag, last_value}
use vllm_chill.Kubernetes.Args.Command.{
  items, switch_item, reasoning_item, model_items, batch_items, offload_items, parser_items,
  server_items,
}

last_value-append :
    (k : Bytes) (is js : List Item) (d : Option Bytes)
    → last_value k (is ++ js) d ≡ last_value k js (last_value k is d)
unfolding last_value
last_value-append k [] js d = refl
last_value-append k (pair j v ∷ is) js d = last_value-append k is js _
last_value-append k (flag j ∷ is) js d = last_value-append k is js _

last_value-switch_item :
    (k f j : Bytes) (d : Option Bytes) → same j k ≡ false → last_value k (switch_item f j) d ≡ d
unfolding last_value switch_item
last_value-switch_item k f j d h = ground arith

last_value-reasoning_item :
    (k r : Bytes) (d : Option Bytes)
    → same (codes "--reasoning-parser") k ≡ false
    → last_value k (reasoning_item r) d ≡ d
unfolding last_value reasoning_item
last_value-reasoning_item k r d h = ground arith

-- The value that the built command line gives an option.
unfoldable pub option_value : Bytes → Config → ModelConfig → Bytes
option_value k c m = get_or_empty (last_value k (items c m) none)

-- None of the options that stand in the command line only for some profiles.
abbrev IsSetting : Bytes → Type 0
IsSetting k =
    (same (codes "--enable-chunked-prefill") k ≡ false)
    × (same (codes "--disable-custom-all-reduce") k ≡ false)
    × (same (codes "--enable-prefix-caching") k ≡ false)
    × (same (codes "--enable-auto-tool-choice") k ≡ false)
    × (same (codes "--reasoning-parser") k ≡ false)

option_value_lem :
    (k : Bytes) (c : Config) (m : ModelConfig)
    → IsSetting k
    → option_value k c m
      ≡ get_or_empty (
          last_value k server_items (
            last_value k (parser_items m) (
              last_value k
                (offload_items c)
                (last_value k (batch_items m) (last_value k (model_items c m) none)))))
unfolding option_value items
option_value_lem k c m (h0, h1, h2, h3, h4) = simp last_value-append (
    rw (
      last_value-switch_item k m.enable_chunked_prefill _ _ h0,
      last_value-switch_item k m.disable_custom_all_reduce _ _ h1,
      last_value-switch_item k m.enable_prefix_caching _ _ h2,
      last_value-switch_item k m.enable_auto_tool_choice _ _ h3,
      last_value-reasoning_item k m.reasoning_parser _ h4,
    ))

-- What the command line gives the settings that VerifyPodConfig compares.
pub record Settings (c : Config) (m : ModelConfig) : Type 0 where
  pub model : option_value (codes "--model") c m ≡ m.model_name
  pub served : option_value (codes "--served-model-name") c m ≡ m.served_model_name
  pub len : option_value (codes "--max-model-len") c m ≡ m.max_model_len
  pub memory : option_value (codes "--gpu-memory-utilization") c m ≡ m.gpu_memory_utilization
  pub tokens : option_value (codes "--max-num-batched-tokens") c m ≡ m.max_num_batched_tokens
  pub seqs : option_value (codes "--max-num-seqs") c m ≡ m.max_num_seqs
  pub dtype : option_value (codes "--dtype") c m ≡ m.dtype
  pub offload : option_value (codes "--cpu-offload-gb") c m ≡ format_int c.cpu_offload_gb
  pub parser : option_value (codes "--tool-call-parser") c m ≡ m.tool_call_parser

pub settings : (c : Config) (m : ModelConfig) → Settings c m
unfolding last_value server_items parser_items offload_items batch_items model_items same
settings c m = record {
  model = option_value_lem (codes "--model") c m (refl, refl, refl, refl, refl);
  served = option_value_lem (codes "--served-model-name") c m (refl, refl, refl, refl, refl);
  len = option_value_lem (codes "--max-model-len") c m (refl, refl, refl, refl, refl);
  memory = option_value_lem (codes "--gpu-memory-utilization") c m (refl, refl, refl, refl, refl);
  tokens = option_value_lem (codes "--max-num-batched-tokens") c m (refl, refl, refl, refl, refl);
  seqs = option_value_lem (codes "--max-num-seqs") c m (refl, refl, refl, refl, refl);
  dtype = option_value_lem (codes "--dtype") c m (refl, refl, refl, refl, refl);
  offload = option_value_lem (codes "--cpu-offload-gb") c m (refl, refl, refl, refl, refl);
  parser = option_value_lem (codes "--tool-call-parser") c m (refl, refl, refl, refl, refl);
}
