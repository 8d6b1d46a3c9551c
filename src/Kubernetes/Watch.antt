-- ===== src/Kubernetes/Watch.antt =====
-- WatchModel of pkg/kubernetes/crd_client.go: the start of a watch. What its goroutine does is in
-- Proxy/Watch.
use vllm_chill.Prelude.{
  Bytes, codes, same, Option, none, some, List, [], ◌∷◌, ◌++◌, Error, errorf, wrap, Result, ok, err,
  panic, if◌then◌else◌,
}
use vllm_chill.Kubernetes.Api.{Api}

-- What the watch uses of the dynamic client beside the calls of Api.
pub record WatchApi (api : Api) : Type 0 where
  pub resource_version : api.Object → Bytes
  -- Watch with a field selector, from a resource version on
  pub watch : Bytes → Bytes → api.Server → Option Error × api.Server

module _ (api : Api) (watch_api : WatchApi api) where
  open api use {Server, Object, list_objects, name}
  open watch_api use {resource_version, watch}

  -- the resource version of the first object of that name, "" if there is none
  unfoldable pub find_version : Bytes → List Object → Bytes
  unfolding same
  find_version model [] = []
  find_version model (u ∷ us) =
      if same (name u) model then resource_version u else find_version model us

  abbrev pub started : Option Error × Server → Result (Unit {0}) × Server
  started (none, s) = (ok tt, s)
  started (some e, s) = (err (wrap (codes "failed to create watcher") e), s)

  unfoldable pub watch_from : Bytes → Bytes → Server → Result (Unit {0}) × Server
  watch_from model [] s = (err (errorf (codes "model " ++ model ++ codes " not found")), s)
  watch_from model (c ∷ version) s =
      started (watch (codes "metadata.name=" ++ model) (c ∷ version) s)

  abbrev pub watch_listed : Bytes → Result (List Object) × Server → Result (Unit {0}) × Server
  watch_listed model (ok us, s) = watch_from model (find_version model us) s
  watch_listed model (err e, s) = (err (wrap (codes "failed to list models") e), s)
  watch_listed model (panic, s) = (panic, s)

  -- WatchModel, up to the start of its goroutine
  unfoldable pub watch_model : Bytes → Server → Result (Unit {0}) × Server
  unfolding watch_from find_version
  watch_model model s = watch_listed model (list_objects s)
