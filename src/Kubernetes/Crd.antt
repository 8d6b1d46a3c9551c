-- ===== src/Kubernetes/Crd.antt =====
-- pkg/kubernetes/crd_client.go: model profiles from VLLMModel objects.
pub mod Lookup
use vllm_chill.Prelude.{
  Bytes, codes, same, Bool, true, false, Option, none, some, List, [], ◌∷◌, ◌++◌, ℤ, pos, Error,
  errorf, wrap, Result, ok, err, panic, if◌then◌else◌, format_int,
}
use vllm_chill.Kubernetes.Models.{ModelConfig, validate, format_bool}
use vllm_chill.Kubernetes.Api.{Api}

-- VLLMModelSpec of pkg/apis/vllm/v1alpha1/types.go. Its gpuMemoryUtilization, a float that stays 0, is
-- left out.
pub record VllmModelSpec : Type 0 where
  pub model_name : Bytes
  pub served_model_name : Bytes
  pub tool_call_parser : Bytes
  pub reasoning_parser : Bytes
  pub max_model_len : ℤ
  -- `none` for the nil pointer, also below
  pub enable_chunked_prefill : Option Bool
  pub max_num_batched_tokens : ℤ
  pub max_num_seqs : ℤ
  pub dtype : Bytes
  pub disable_custom_all_reduce : Option Bool
  pub enable_prefix_caching : Option Bool
  pub enable_auto_tool_choice : Option Bool

pub record VllmModel : Type 0 where
  pub api_version : Bytes
  pub kind : Bytes
  pub name : Bytes
  pub namespace : Bytes
  pub spec : VllmModelSpec

-- A field that is set only if it is found; it is "" before.
abbrev pub or_unset {ℓ} : {A : Type ℓ} → (A → Bytes) → Option A → Bytes
or_unset f none = []
or_unset f (some a) = f a

abbrev pub text : Bytes → Bytes
text s = s

-- the error that convertToModelConfig makes of Validate's
abbrev pub checked : ModelConfig → Option Bytes → Result ModelConfig
checked m none = ok m
checked m (some e) = err (wrap (codes "invalid VLLMModel configuration") (errorf e))

module _ (api : Api) where
  open api use {
    Server, Object, Spec, list_objects, name, namespace, api_version, kind, nested_map,
    nested_string, nested_int, nested_bool, nested_float, format_float,
  }

  -- the fields that convertToModelConfig reads
  unfoldable pub config_of : Spec → ModelConfig
  unfolding format_bool format_int
  config_of s = record {
    model_name = or_unset text (nested_string s (codes "modelName"));
    served_model_name = or_unset text (nested_string s (codes "servedModelName"));
    tool_call_parser = or_unset text (nested_string s (codes "toolCallParser"));
    reasoning_parser = or_unset text (nested_string s (codes "reasoningParser"));
    max_model_len = or_unset format_int (nested_int s (codes "maxModelLen"));
    gpu_memory_utilization = or_unset format_float (nested_float s (codes "gpuMemoryUtilization"));
    enable_chunked_prefill = or_unset format_bool (nested_bool s (codes "enableChunkedPrefill"));
    max_num_batched_tokens = or_unset format_int (nested_int s (codes "maxNumBatchedTokens"));
    max_num_seqs = or_unset format_int (nested_int s (codes "maxNumSeqs"));
    dtype = or_unset text (nested_string s (codes "dtype"));
    disable_custom_all_reduce =
        or_unset format_bool (nested_bool s (codes "disableCustomAllReduce"));
    enable_prefix_caching = or_unset format_bool (nested_bool s (codes "enablePrefixCaching"));
    enable_auto_tool_choice = or_unset format_bool (nested_bool s (codes "enableAutoToolChoice"));
  }

  abbrev pub convert_spec : Option Spec → Result ModelConfig
  convert_spec none = err (errorf (codes "spec not found in VLLMModel"))
  convert_spec (some s) = checked (config_of s) (validate (config_of s))

  -- (*CRDClient).convertToModelConfig
  unfoldable pub convert_to_model_config : Object → Result ModelConfig
  convert_to_model_config u = convert_spec (nested_map u (codes "spec"))

  -- the served model name of an object's spec, if it has one
  abbrev pub served_name : Option Spec → Option Bytes
  served_name none = none
  served_name (some s) = nested_string s (codes "servedModelName")

  abbrev pub is_name : Bytes → Option Bytes → Bool
  is_name wanted none = false
  is_name wanted (some served) = same served wanted

  -- whether an object serves a model
  abbrev pub serves : Bytes → Object → Bool
  serves wanted u = is_name wanted (served_name (nested_map u (codes "spec")))

  -- The loop of GetModel.
  unfoldable pub find_model : Bytes → List Object → Result ModelConfig
  unfolding convert_to_model_config
  find_model wanted [] =
      err (errorf (codes "VLLMModel with servedModelName '" ++ wanted ++ codes "' not found"))
  find_model wanted (u ∷ us) =
      if serves wanted u then convert_to_model_config u else find_model wanted us

  abbrev pub find_in : Bytes → Result (List Object) → Result ModelConfig
  find_in wanted (ok items) = find_model wanted items
  find_in wanted (err e) = err (wrap (codes "failed to list VLLMModels") e)
  find_in wanted panic = panic

  -- (*CRDClient).GetModel
  unfoldable pub get_model : Bytes → Server → Result ModelConfig × Server
  unfolding find_model
  get_model wanted s = let (listed, s') = list_objects s in (find_in wanted listed, s')

  -- convertUnstructuredToVLLMModel; the fields that it does not set are zero.
  unfoldable pub convert_unstructured : Object → Option VllmModel
  convert_unstructured u = elim (nested_map u (codes "spec")) [
    | none ↦ none
    | some s ↦ some (record {
      api_version = api_version u;
      kind = kind u;
      name = name u;
      namespace = namespace u;
      spec = record {
        model_name = or_unset text (nested_string s (codes "modelName"));
        served_model_name = or_unset text (nested_string s (codes "servedModelName"));
        tool_call_parser = [];
        reasoning_parser = [];
        max_model_len = pos 0;
        enable_chunked_prefill = none;
        max_num_batched_tokens = pos 0;
        max_num_seqs = pos 0;
        dtype = [];
        disable_custom_all_reduce = none;
        enable_prefix_caching = none;
        enable_auto_tool_choice = none;
      };
    })
  ]

  unfoldable pub convert_all : List Object → List VllmModel
  unfolding convert_unstructured
  convert_all [] = []
  convert_all (u ∷ us) = elim (convert_unstructured u) [
    | none ↦ convert_all us
    | some m ↦ m ∷ convert_all us
  ]

  abbrev pub listed_models : Result (List Object) → Result (List VllmModel)
  listed_models (ok items) = ok (convert_all items)
  listed_models (err e) = err (wrap (codes "failed to list VLLMModels") e)
  listed_models panic = panic

  -- (*CRDClient).ListModels
  unfoldable pub list_models : Server → Result (List VllmModel) × Server
  unfolding convert_all
  list_models s = let (listed, s') = list_objects s in (listed_models listed, s')
