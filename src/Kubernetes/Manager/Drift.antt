-- ===== src/Kubernetes/Manager/Drift.antt =====
-- VerifyPodConfig against the command line that CreatePod gave the pod.
use vllm_chill.Prelude.{
  Bytes, codes, same, same_iff, same_refl, ◌&&◌, Bool, true, [], ok, panic, lookup, ◌≡◌, ◌≢◌, ◌↔◌,
  refl, arith, ap, sym, all, ◌∙◌,
}
use vllm_chill.Kubernetes.Config.{Config}
use vllm_chill.Kubernetes.Models.{ModelConfig}
use vllm_chill.Kubernetes.Args.Items.{record_all, lookup-record_all}
use vllm_chill.Kubernetes.Args.Command.{IsReadable, items, args_to_map-build}
use vllm_chill.Kubernetes.Args.Settings.{option_value, settings}
use vllm_chill.Kubernetes.Pod.{Pod, build_pod_spec}
use vllm_chill.Kubernetes.Manager.{agrees, critical_params, verify_reply}

-- The two profiles agree in the settings that the check compares.
pub record SameCritical (m m' : ModelConfig) : Type 0 where
  pub model_name : m.model_name ≡ m'.model_name
  pub served_model_name : m.served_model_name ≡ m'.served_model_name
  pub max_model_len : m.max_model_len ≡ m'.max_model_len
  pub gpu_memory_utilization : m.gpu_memory_utilization ≡ m'.gpu_memory_utilization
  pub max_num_batched_tokens : m.max_num_batched_tokens ≡ m'.max_num_batched_tokens
  pub max_num_seqs : m.max_num_seqs ≡ m'.max_num_seqs
  pub dtype : m.dtype ≡ m'.dtype
  pub tool_call_parser : m.tool_call_parser ≡ m'.tool_call_parser

module _ (c : Config) (m m' : ModelConfig) where
  agrees-option :
      (k : Bytes)
      → agrees (record_all (items c m) []) (record_all (items c m') []) k
        ≡ same (option_value k c m) (option_value k c m')
  unfolding agrees option_value
  agrees-option k = rw (lookup-record_all, lookup-record_all) (unfold lookup in refl)

  -- the comparison, setting by setting
  compared : Bool
  compared =
      same m.model_name m'.model_name
      && (same m.served_model_name m'.served_model_name
          && (same m.max_model_len m'.max_model_len
              && (same m.gpu_memory_utilization m'.gpu_memory_utilization
                  && (same m.max_num_batched_tokens m'.max_num_batched_tokens
                      && (same m.max_num_seqs m'.max_num_seqs
                          && (same m.dtype m'.dtype
                              && (same m.tool_call_parser m'.tool_call_parser)))))))

  all_agree :
      all (agrees (record_all (items c m) []) (record_all (items c m') [])) critical_params
      ≡ compared
  unfolding critical_params compared
  all_agree =
      let a = settings c m in
      let b = settings c m' in
      simp
        (
          agrees-option, a.model, a.served, a.len, a.memory, a.tokens, a.seqs, a.dtype, a.offload,
          a.parser, b.model, b.served, b.len, b.memory, b.tokens, b.seqs, b.dtype, b.offload,
          b.parser, same_refl,
        )
        (ground arith)

  compared_iff : (compared ≡ true) ↔ SameCritical m m'
  unfolding compared
  compared_iff = (
    λ h. ground (
      arith,
      same_iff m.model_name m'.model_name,
      same_iff m.served_model_name m'.served_model_name,
      same_iff m.max_model_len m'.max_model_len,
      same_iff m.gpu_memory_utilization m'.gpu_memory_utilization,
      same_iff m.max_num_batched_tokens m'.max_num_batched_tokens,
      same_iff m.max_num_seqs m'.max_num_seqs,
      same_iff m.dtype m'.dtype,
      same_iff m.tool_call_parser m'.tool_call_parser,
    ),
    λ h. ground (
      arith,
      same_iff m.model_name m'.model_name,
      same_iff m.served_model_name m'.served_model_name,
      same_iff m.max_model_len m'.max_model_len,
      same_iff m.gpu_memory_utilization m'.gpu_memory_utilization,
      same_iff m.max_num_batched_tokens m'.max_num_batched_tokens,
      same_iff m.max_num_seqs m'.max_num_seqs,
      same_iff m.dtype m'.dtype,
      same_iff m.tool_call_parser m'.tool_call_parser,
    ),
  )

  verify-compared :
      (p : Pod)
      → IsReadable c m
      → IsReadable c m'
      → p.phase ≡ codes "Running"
      → p.spec ≡ build_pod_spec c m
      → verify_reply c m' (ok p) ≡ ok compared
  unfolding verify_reply build_pod_spec
  verify-compared p h h' running spec = rw (
    running,
    spec,
    same_refl (codes "Running"),
    args_to_map-build c m h,
    args_to_map-build c m' h',
    all_agree,
  )

  -- A running pod that was built from one profile is checked against another: the check gives an
  -- answer, and the answer is that there is no drift exactly when the two profiles agree in the
  -- eight settings of the profile that the check compares. Both command lines are readable.
  pub verify_iff :
      (p : Pod)
      → IsReadable c m
      → IsReadable c m'
      → p.phase ≡ codes "Running"
      → p.spec ≡ build_pod_spec c m
      → ((verify_reply c m' (ok p) ≡ ok true) ↔ SameCritical m m')
        × (verify_reply c m' (ok p) ≢ panic)
  verify_iff p h h' running spec =
      let e = verify-compared p h h' running spec in
      (
        (λ t. compared_iff.0 (ok_inj (sym e ∙ t)), λ t. e ∙ ap ok (compared_iff.1 t)),
        λ t. cc (e, t),
      )
    where
      ok_inj : {a b : Bool} → ok a ≡ ok b → a ≡ b
      ok_inj q = cc
