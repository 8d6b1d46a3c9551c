-- ===== src/Proxy/Handler/Catalog.antt =====
-- What the listing of the models offers: ListModels of pkg/proxy/autoscaler.go over ListModels of
-- pkg/kubernetes/crd_client.go.
use vllm_chill.Prelude.{
  Bytes, codes, none, some, List, [], ◌∷◌, map, ok, ◌≡◌, refl, All, arith, format_int,
}
use vllm_chill.Kubernetes.Config.{Config}
use vllm_chill.Kubernetes.Api.{Api}
use vllm_chill.Kubernetes.Crd.{convert_unstructured, convert_all, list_models}
use vllm_chill.Proxy.Scaler.{World, Scaler}
use vllm_chill.Proxy.Handler.{ModelInfo, info_of, get_model_names, list_infos}

module _ (api : Api) where
  open api use {Object, nested_map, name}

  -- the metadata names of the objects that have a spec
  pub offered : List Object → List Bytes
  offered [] = []
  offered (u ∷ us) = elim (nested_map u (codes "spec")) [
    | none ↦ offered us
    | some s ↦ name u ∷ offered us
  ]

  convert_all-offered :
      (us : List Object) → get_model_names (map info_of (convert_all api us)) ≡ offered us
  unfolding convert_all convert_unstructured get_model_names info_of offered
  convert_all-offered [] = refl
  convert_all-offered (u ∷ us) = ground (arith, convert_all-offered us)

  convert_all-lengths :
      (us : List Object) → All (λ m. m.max_model_len ≡ codes "0") (map info_of (convert_all api us))
  unfolding convert_all convert_unstructured info_of format_int
  convert_all-lengths [] = tt
  convert_all-lengths (u ∷ us) = ground (arith, convert_all-lengths us)

module _ (world : World) (config : Config) where
  open world use {api}

  -- Once the API lists the objects, the listing has the metadata name, not the served name, of each
  -- one that has a spec, in order, and the length 0 for every one.
  pub list_infos-offered :
      (s : Scaler world) (us : List api.Object)
      → (api.list_objects s.server).0 ≡ ok us
      → (ms : List ModelInfo) × ((list_infos world config s).0 ≡ ok ms)
        × (get_model_names ms ≡ offered api us)
        × All (λ m. m.max_model_len ≡ codes "0") ms
  unfolding list_infos list_models
  list_infos-offered s us h = (
    map info_of (convert_all api us),
    rw h,
    convert_all-offered api us,
    convert_all-lengths api us,
  )
