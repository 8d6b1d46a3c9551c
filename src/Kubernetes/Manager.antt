-- ===== src/Kubernetes/Manager.antt =====
-- pkg/kubernetes/k8s_manager.go: the operations on the cluster, over any API server.
pub mod Drift
pub mod Crash
use vllm_chill.Prelude.{
  Bytes, codes, same, Bool, true, false, Option, none, some, List, [], ◌∷◌, Error, errorf, wrap,
  Result, ok, err, panic, Assoc, lookup, get_or_empty, if◌then◌else◌, all,
}
use vllm_chill.Kubernetes.Config.{Config}
use vllm_chill.Kubernetes.Models.{ModelConfig}
use vllm_chill.Kubernetes.Args.{args_to_map, build_vllm_args}
use vllm_chill.Kubernetes.Pod.{Pod, Container, Service, pod_of, service_of}
use vllm_chill.Kubernetes.Api.{Api}

-- Wraps an error, if there is one.
abbrev pub wrapped : Bytes → Option Error → Option Error
wrapped prefix none = none
wrapped prefix (some e) = some (wrap prefix e)

-- The error of DeletePod: a pod that is not there is no error.
abbrev pub unless_not_found : Option Error → Option Error
unless_not_found none = none
unless_not_found (some e) =
    if e.not_found then none else some (wrap (codes "failed to delete pod") e)

-- What PodExists makes of GetPod's answer.
abbrev pub existence : Result Pod → Result Bool
existence (ok p) = ok true
existence (err e) = if e.not_found then ok false else err e
existence panic = panic

-- m[param] on both maps
unfoldable pub agrees : Assoc Bytes → Assoc Bytes → Bytes → Bool
agrees actual expected param =
    same (get_or_empty (lookup param actual)) (get_or_empty (lookup param expected))

pub critical_params : List Bytes
critical_params =
    codes "--model"
    ∷ codes "--served-model-name"
    ∷ codes "--max-model-len"
    ∷ codes "--gpu-memory-utilization"
    ∷ codes "--max-num-batched-tokens"
    ∷ codes "--max-num-seqs"
    ∷ codes "--dtype"
    ∷ codes "--cpu-offload-gb"
    ∷ codes "--tool-call-parser"
    ∷ []

-- Whether the two command lines agree; argsToMap is called on both before the comparison.
abbrev pub compare_maps : Option (Assoc Bytes) → Option (Assoc Bytes) → Result Bool
compare_maps none expected = panic
compare_maps (some actual) none = panic
compare_maps (some actual) (some expected) = ok (all (agrees actual expected) critical_params)

abbrev pub verify_containers : Config → ModelConfig → List Container → Result Bool
verify_containers c m [] = err (errorf (codes "no containers in pod"))
verify_containers c m (k ∷ ks) =
    compare_maps (args_to_map k.args) (args_to_map (build_vllm_args c m))

-- What VerifyPodConfig makes of GetPod's answer.
unfoldable pub verify_reply : Config → ModelConfig → Result Pod → Result Bool
verify_reply c m (ok p) =
    if same p.phase (codes "Running") then verify_containers c m p.spec.containers else ok true
verify_reply c m (err e) = if e.not_found then ok true else err (wrap (codes "failed to get pod") e)
verify_reply c m panic = panic

module _ (api : Api) (c : Config) where
  open api use {Server, get_service, create_service}

  -- (*K8sManager).GetPod
  unfoldable pub get_pod : Server → Result Pod × Server
  get_pod s = api.get_pod c.namespace c.deployment s

  -- (*K8sManager).PodExists
  unfoldable pub pod_exists : Server → Result Bool × Server
  unfolding get_pod
  pod_exists s = let (r, s') = get_pod s in (existence r, s')

  -- (*K8sManager).CreatePod
  unfoldable pub create_pod : ModelConfig → Server → Option Error × Server
  unfolding pod_of
  create_pod m s =
      let (e, s') = api.create_pod c.namespace (pod_of c m) s in
      (wrapped (codes "failed to create pod") e, s')

  -- (*K8sManager).DeletePod
  unfoldable pub delete_pod : Server → Option Error × Server
  delete_pod s = let (e, s') = api.delete_pod c.namespace c.deployment s in (unless_not_found e, s')

  -- (*K8sManager).VerifyPodConfig
  unfoldable pub verify_pod_config : ModelConfig → Server → Result Bool × Server
  unfolding verify_reply
  verify_pod_config m s = let (r, s') = get_pod s in (verify_reply c m r, s')

  -- The service is created if the answer to Get is that there is none.
  abbrev pub create_missing : Option Error → Server → Option Error × Server
  create_missing none s = (none, s)
  create_missing (some e) s =
      let (e', s') = create_service c.namespace (service_of c) s in
      if e.not_found
      then (wrapped (codes "failed to create service") e', s')
      else (some (wrap (codes "failed to get service") e), s)

  -- (*K8sManager).ensureService
  unfoldable pub ensure_service : Server → Option Error × Server
  ensure_service s =
      let (r, s') = get_service c.namespace (service_of c).name s in create_missing r s'

  -- (*K8sManager).EnsureVLLMResources
  unfoldable pub ensure_vllm_resources : Server → Option Error × Server
  unfolding ensure_service
  ensure_vllm_resources s =
      let (e, s') = ensure_service s in (wrapped (codes "failed to ensure service") e, s')
