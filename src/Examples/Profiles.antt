-- ===== src/Examples/Profiles.antt =====
-- The theorems on the model profiles, at the profile and the configuration of Setup.
use vllm_chill.Prelude.{
  codes, true, some, [], ok, panic, ◌≡◌, ◌≢◌, ◌↔◌, refl, inl, same, format_int, to_decimal,
}
use vllm_chill.Kubernetes.Models.{is_empty, format_bool, validate}
use vllm_chill.Kubernetes.Models.Profiles.{IsComplete}
use vllm_chill.Kubernetes.Args.{gpu_count_of, args_to_map, build_vllm_args}
use vllm_chill.Kubernetes.Args.Items.{record_all}
use vllm_chill.Kubernetes.Args.Command.{IsReadable, items, args_to_map-build}
use vllm_chill.Kubernetes.Crd.{get_model, find_model, convert_to_model_config, config_of}
use vllm_chill.Kubernetes.Crd.Lookup.{get_model-served}
use vllm_chill.Kubernetes.Manager.{verify_reply}
use vllm_chill.Kubernetes.Manager.Drift.{SameCritical, verify_iff}
use vllm_chill.Kubernetes.Manager.Crash.{verify_panics}
use vllm_chill.Examples.Setup.{
  qwen, longer_qwen, mute_qwen, cluster_config, ready_pod, bare_container, bare_pod, served_b,
  small_api,
}

qwen-IsReadable : IsReadable cluster_config qwen
unfolding is_empty format_int to_decimal gpu_count_of
qwen-IsReadable = record {
  gpu_count = refl;
  cpu_offload_gb = refl;
  model_name = refl;
  served_model_name = refl;
  max_model_len = refl;
  gpu_memory_utilization = refl;
  max_num_batched_tokens = refl;
  max_num_seqs = refl;
  dtype = refl;
  tool_call_parser = refl;
  reasoning_parser = inl refl;
}

longer_qwen-IsReadable : IsReadable cluster_config longer_qwen
unfolding is_empty format_int to_decimal gpu_count_of
longer_qwen-IsReadable = record {
  gpu_count = refl;
  cpu_offload_gb = refl;
  model_name = refl;
  served_model_name = refl;
  max_model_len = refl;
  gpu_memory_utilization = refl;
  max_num_batched_tokens = refl;
  max_num_seqs = refl;
  dtype = refl;
  tool_call_parser = refl;
  reasoning_parser = inl refl;
}

args_to_map-build_example :
    args_to_map (build_vllm_args cluster_config qwen)
    ≡ some (record_all (items cluster_config qwen) [])
args_to_map-build_example = args_to_map-build cluster_config qwen qwen-IsReadable

get_model-served_example : (served_b.served_model_name ≡ codes "b") × IsComplete served_b
unfolding get_model find_model convert_to_model_config config_of validate is_empty same format_bool
    format_int to_decimal
get_model-served_example = get_model-served small_api (codes "b") 0 served_b refl

verify_iff_example :
    ((verify_reply cluster_config longer_qwen (ok ready_pod) ≡ ok true)
      ↔ SameCritical qwen longer_qwen)
    × (verify_reply cluster_config longer_qwen (ok ready_pod) ≢ panic)
verify_iff_example =
    verify_iff cluster_config qwen longer_qwen ready_pod qwen-IsReadable longer_qwen-IsReadable refl
      refl

verify_panics_example : verify_reply cluster_config mute_qwen (ok bare_pod) ≡ panic
verify_panics_example =
    verify_panics cluster_config mute_qwen bare_pod bare_container [] refl refl refl
