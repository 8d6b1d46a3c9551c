-- ===== src/Proxy/Watch/Lost.antt =====
-- When the watch is lost.
use vllm_chill.Prelude.{
  Bytes, codes, same, same_iff, Bool-cases, inl, inr, ◌⊎◌, true, false, Option, none, some, List,
  [], ◌∷◌, ◌++◌, Error, Result, ok, err, panic, ◌≡◌, ◌≢◌, refl, sym, ap, ◌∙◌, arith,
}
use vllm_chill.Kubernetes.Config.{Config as K8sConfig}
use vllm_chill.Kubernetes.Watch.{
  WatchApi, find_version, started, watch_from, watch_listed, watch_model,
}
use vllm_chill.Proxy.Scaler.{World, Scaler}
use vllm_chill.Proxy.Watch.{Signal, closed, restarted, receive, watch_run}

module _ (world : World) (watch_api : WatchApi world.api) where
  open world use {api}
  open watch_api use {resource_version, watch}

  -- The first of the objects with the name.
  unfoldable pub IsFirst : Bytes → List api.Object → api.Object → Type 0
  IsFirst model [] u = ⊥
  IsFirst model (v ∷ vs) u =
      ((api.name v ≡ model) × (v ≡ u)) ⊎ ((api.name v ≢ model) × IsFirst model vs u)

  -- The models can be listed, one of them has the name, the first such has a resource version, and
  -- the watch of that name can be opened from there.
  abbrev pub CanOpen : Bytes → api.Server → Type 0
  CanOpen model s =
      (us : List api.Object) × (u : api.Object) × ((api.list_objects s).0 ≡ ok us)
      × IsFirst model us u
      × (resource_version u ≢ [])
      × ((watch (codes "metadata.name=" ++ model) (resource_version u) (api.list_objects s).1).0
          ≡ none)

  find_version-IsFirst :
      (model : Bytes) (us : List api.Object)
      → find_version api watch_api model us ≢ []
      → (u : api.Object) × IsFirst model us u
        × (resource_version u ≡ find_version api watch_api model us)
  unfolding find_version IsFirst
  find_version-IsFirst model [] h = absurd (h refl)
  find_version-IsFirst model (v ∷ vs) h = elim (Bool-cases (same (api.name v) model)) [
    | inl found ↦ (v, inl ((same_iff (api.name v) model).0 found, refl), rw found refl)
    | inr other ↦
        let (u, first, version) = find_version-IsFirst model vs (λ e. h (rw other e)) in
        (
          u,
          inr (ground (arith, same_iff (api.name v) model, other), first),
          version ∙ rw other refl,
        )
  ]

  started-none : (r : Option Error × api.Server) → (started api watch_api r).0 ≡ ok tt → r.0 ≡ none
  started-none (none, s) h = refl
  started-none (some e, s) h = cc

  -- a watch that starts has a version, and the call of Watch no error
  Opens : Bytes → Bytes → api.Server → Type 0
  Opens model version s =
      (version ≢ []) × ((watch (codes "metadata.name=" ++ model) version s).0 ≡ none)

  watch_from-Opens :
      (model version : Bytes) (s : api.Server)
      → (watch_from api watch_api model version s).0 ≡ ok tt
      → Opens model version s
  unfolding watch_from Opens
  watch_from-Opens model [] s h = cc
  watch_from-Opens model (c ∷ version) s h =
      (λ e. cc, started-none (watch (codes "metadata.name=" ++ model) (c ∷ version) s) h)

  listed-Opens :
      (model : Bytes) (r : Result (List api.Object) × api.Server)
      → (watch_listed api watch_api model r).0 ≡ ok tt
      → (us : List api.Object) × (r.0 ≡ ok us)
        × Opens model (find_version api watch_api model us) r.1
  listed-Opens model (ok us, s) h =
      (us, refl, watch_from-Opens model (find_version api watch_api model us) s h)
  listed-Opens model (err e, s) h = cc
  listed-Opens model (panic, s) h = cc

  opened-CanOpen :
      (model : Bytes) (s : api.Server)
      → (watch_model api watch_api model s).0 ≡ ok tt
      → CanOpen model s
  unfolding watch_model Opens
  opened-CanOpen model s h =
      let (us, listed, (some_version, opens)) = listed-Opens model (api.list_objects s) h in
      let (u, first, version) = find_version-IsFirst model us some_version in
      let field = codes "metadata.name=" ++ model in
      (
        us,
        u,
        listed,
        first,
        λ e. some_version (sym version ∙ e),
        ap (λ v. (watch field v (api.list_objects s).1).0) version ∙ opens,
      )

  module _ (config : K8sConfig) where
    watch_run-off :
        (model : Bytes) (xs : List Signal) (s : Scaler world)
        → watch_run world watch_api config model xs (false, s) ≡ (false, s)
    unfolding watch_run
    watch_run-off model [] s = refl
    watch_run-off model (x ∷ xs) s = watch_run-off model xs s

    restarted-off :
        (s : Scaler world) (r : Result (Unit {0}) × api.Server)
        → r.0 ≢ ok tt
        → restarted world watch_api config s r ≡ (false, record s { server = r.1 })
    restarted-off s (ok u, server) h = absurd (h refl)
    restarted-off s (err d, server) h = refl
    restarted-off s (panic, server) h = refl

    -- A watch whose channel closes while it cannot be opened again, as where the models cannot be
    -- listed, none has the name, or the call of Watch fails, is lost for good: whatever is received
    -- later, nothing changes any more.
    pub lost_watch_is_final :
        (model : Bytes) (xs : List Signal) (s : Scaler world)
        → ¬ CanOpen model s.server
        → watch_run world watch_api config model (closed ∷ xs) (true, s)
          ≡ (false, record s { server = (watch_model api watch_api model s.server).1 })
    unfolding watch_run receive
    lost_watch_is_final model xs s h =
        let r = watch_model api watch_api model s.server in
        ap (watch_run world watch_api config model xs)
          (restarted-off s r (λ e. h (opened-CanOpen model s.server e)))
        ∙ watch_run-off model xs (record s { server = r.1 })
