-- ===== src/Kubernetes/Pod/Wiring.antt =====
-- How the pod, its service and its command line fit together.
use vllm_chill.Prelude.{
  ℕ, Bytes, same, lookup, Assoc, get_or_empty, Option, none, some, List, [], ◌∷◌, Bool, true, all,
  any, ◌≡◌, refl, ◌&&◌, if◌then◌else◌,
}
use vllm_chill.Kubernetes.Config.{Config}
use vllm_chill.Kubernetes.Models.{ModelConfig}
use vllm_chill.Kubernetes.Pod.{
  ContainerPort, Container, PodSpec, ServicePort, build_pod_spec, service_of, pod_of, object_labels,
}

-- Every mount of every container names a volume of the pod.
abbrev pub mounts_resolve : PodSpec → Bool
mounts_resolve s =
    all (λ c. all (λ m. any (λ v. same v.name m.name) s.volumes) c.volume_mounts) s.containers

-- The number of the port with a name.
abbrev pub find_port : Bytes → List ContainerPort → Option ℕ
find_port k [] = none
find_port k (p ∷ ps) = if same p.name k then some p.container_port else find_port k ps

-- What a service port forwards to: the first container that has a port of that name.
abbrev pub target_of : Bytes → List Container → Option ℕ
target_of k [] = none
target_of k (c ∷ cs) = elim (find_port k c.ports) [ none ↦ target_of k cs | some n ↦ some n ]

-- Every entry of a selector is a label.
abbrev pub selects : Assoc Bytes → Assoc Bytes → Bool
selects [] labels = true
selects ((k, v) ∷ sel) labels = same (get_or_empty (lookup k labels)) v && selects sel labels

abbrev pub targets : List ServicePort → List Container → List (Option ℕ)
targets [] cs = []
targets (p ∷ ps) cs = target_of p.target_port cs ∷ targets ps cs

-- For every configuration and profile: the service's selector picks the pod, its two ports lead to
-- the container ports 8000 and 8001, and every volume mount names a volume of the pod.
pub pod_wiring :
    (c : Config) (m : ModelConfig)
    → (selects (service_of c).selector (pod_of c m).labels ≡ true)
      × (targets (service_of c).ports (pod_of c m).spec.containers ≡ some 8000 ∷ some 8001 ∷ [])
      × (mounts_resolve (pod_of c m).spec ≡ true)
unfolding service_of pod_of build_pod_spec object_labels lookup same
pod_wiring c m = (refl, refl, refl)
