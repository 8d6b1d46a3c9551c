-- ===== src/Kubernetes/Models.antt =====
-- pkg/kubernetes/models.go: a model profile, its validation and its form as ConfigMap data.
pub mod Profiles
use vllm_chill.Prelude.{
  Bytes, codes, same, Assoc, lookup, get_or_empty, Option, none, some, [], ◌∷◌, Bool, true, false,
  if◌then◌else◌,
}

pub record ModelConfig : Type 0 where
  pub model_name : Bytes
  pub served_model_name : Bytes
  pub tool_call_parser : Bytes
  pub reasoning_parser : Bytes
  pub max_model_len : Bytes
  pub gpu_memory_utilization : Bytes
  pub enable_chunked_prefill : Bytes
  pub max_num_batched_tokens : Bytes
  pub max_num_seqs : Bytes
  pub dtype : Bytes
  pub disable_custom_all_reduce : Bytes
  pub enable_prefix_caching : Bytes
  pub enable_auto_tool_choice : Bytes

-- (*ModelConfig).ToConfigMapData
unfoldable pub to_config_map_data : ModelConfig → Assoc Bytes
to_config_map_data m =
    (codes "MODEL_NAME", m.model_name)
    ∷ (codes "SERVED_MODEL_NAME", m.served_model_name)
    ∷ (codes "TOOL_CALL_PARSER", m.tool_call_parser)
    ∷ (codes "REASONING_PARSER", m.reasoning_parser)
    ∷ (codes "MAX_MODEL_LEN", m.max_model_len)
    ∷ (codes "GPU_MEMORY_UTILIZATION", m.gpu_memory_utilization)
    ∷ (codes "ENABLE_CHUNKED_PREFILL", m.enable_chunked_prefill)
    ∷ (codes "MAX_NUM_BATCHED_TOKENS", m.max_num_batched_tokens)
    ∷ (codes "MAX_NUM_SEQS", m.max_num_seqs)
    ∷ (codes "DTYPE", m.dtype)
    ∷ (codes "DISABLE_CUSTOM_ALL_REDUCE", m.disable_custom_all_reduce)
    ∷ (codes "ENABLE_PREFIX_CACHING", m.enable_prefix_caching)
    ∷ (codes "ENABLE_AUTO_TOOL_CHOICE", m.enable_auto_tool_choice)
    ∷ []

-- `m[k]` of a `map[string]string`.
abbrev pub at : Assoc Bytes → Bytes → Bytes
at m k = get_or_empty (lookup k m)

-- FromConfigMapData
unfoldable pub from_config_map_data : Assoc Bytes → ModelConfig
unfolding lookup same
from_config_map_data m = record {
  model_name = at m (codes "MODEL_NAME");
  served_model_name = at m (codes "SERVED_MODEL_NAME");
  tool_call_parser = at m (codes "TOOL_CALL_PARSER");
  reasoning_parser = at m (codes "REASONING_PARSER");
  max_model_len = at m (codes "MAX_MODEL_LEN");
  gpu_memory_utilization = at m (codes "GPU_MEMORY_UTILIZATION");
  enable_chunked_prefill = at m (codes "ENABLE_CHUNKED_PREFILL");
  max_num_batched_tokens = at m (codes "MAX_NUM_BATCHED_TOKENS");
  max_num_seqs = at m (codes "MAX_NUM_SEQS");
  dtype = at m (codes "DTYPE");
  disable_custom_all_reduce = at m (codes "DISABLE_CUSTOM_ALL_REDUCE");
  enable_prefix_caching = at m (codes "ENABLE_PREFIX_CACHING");
  enable_auto_tool_choice = at m (codes "ENABLE_AUTO_TOOL_CHOICE");
}

-- strconv.FormatBool
unfoldable pub format_bool : Bool → Bytes
format_bool true = codes "true"
format_bool false = codes "false"

-- boolToString; `none` is the nil pointer.
unfoldable pub bool_to_string : Option Bool → Bytes
unfolding format_bool
bool_to_string none = codes "false"
bool_to_string (some b) = format_bool b

-- `s == ""`
unfoldable pub is_empty : Bytes → Bool
is_empty [] = true
is_empty (_ ∷ _) = false

-- (*ModelConfig).Validate: the message of the first failure, `none` for nil.
unfoldable pub validate : ModelConfig → Option Bytes
validate m =
    if is_empty m.model_name
    then some (codes "modelName cannot be empty")
    else if is_empty m.served_model_name
    then some (codes "servedModelName cannot be empty")
    else if is_empty m.max_model_len
    then some (codes "maxModelLen is required")
    else if is_empty m.max_num_batched_tokens
    then some (codes "maxNumBatchedTokens is required")
    else if is_empty m.max_num_seqs
    then some (codes "maxNumSeqs is required")
    else if is_empty m.gpu_memory_utilization
    then some (codes "gpuMemoryUtilization is required")
    else if is_empty m.dtype
    then some (codes "dtype is required")
    else if is_empty m.enable_chunked_prefill
    then some (codes "enableChunkedPrefill is required")
    else if is_empty m.disable_custom_all_reduce
    then some (codes "disableCustomAllReduce is required")
    else if is_empty m.enable_prefix_caching
    then some (codes "enablePrefixCaching is required")
    else if is_empty m.enable_auto_tool_choice
    then some (codes "enableAutoToolChoice is required")
    else none
