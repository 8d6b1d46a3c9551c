-- ===== src/Proxy/Watch/Restarted.antt =====
-- What the watch does while its channel lasts.
use vllm_chill.Prelude.{
  ℕ, suc, ◌<◌, Bytes, true, false, List, [], ◌∷◌, Error, ok, err, All, ◌⊎◌, inl, inr, ◌≡◌, refl,
  ◌∙◌, arith,
}
use vllm_chill.Kubernetes.Config.{Config as K8sConfig}
use vllm_chill.Kubernetes.Pod.{Pod}
use vllm_chill.Kubernetes.Manager.{get_pod, pod_exists, delete_pod}
use vllm_chill.Kubernetes.Watch.{WatchApi}
use vllm_chill.Proxy.Scaler.{World, Scaler}
use vllm_chill.Proxy.Background.{restart_pod}
use vllm_chill.Proxy.Background.Effects.{SameScaler, restart_pod-same}
use vllm_chill.Proxy.Watch.{
  added, modified, deleted, bookmark, error, Signal, cancelled, closed, event, receive, watch_run,
}

-- The API server's answers about the program's pod, where it does not fail: a Delete leaves the pod
-- deleted or being deleted, and Get finds the pod, or says that there is none, which is so only of a
-- pod that is deleted.
pub record Answers (world : World) (config : K8sConfig) : Type 1 where
  pub IsDeleted : world.api.Server → Type 0
  pub deletes :
      (s : world.api.Server)
      → IsDeleted (world.api.delete_pod config.namespace config.deployment s).1
  pub get :
      (s : world.api.Server)
      → ((p : Pod) × ((world.api.get_pod config.namespace config.deployment s).0 ≡ ok p))
        ⊎ ((e : Error) × ((world.api.get_pod config.namespace config.deployment s).0 ≡ err e)
            × (e.not_found ≡ true)
            × IsDeleted (world.api.get_pod config.namespace config.deployment s).1)

module _ (world : World) (watch_api : WatchApi world.api) (config : K8sConfig)
    (answers : Answers world config) where
  open answers use {IsDeleted, deletes, get}

  restart_pod-deletes : (s : Scaler world) → IsDeleted (restart_pod world config s).server
  unfolding restart_pod pod_exists get_pod delete_pod
  restart_pod-deletes s = elim (get s.server) [
    | inl (p, there) ↦ rw there (deletes _)
    | inr (e, answer, missing, gone) ↦ rw (answer, missing) gone
  ]

  abbrev pub IsEvent : Signal → Type 0
  IsEvent (event e) = Unit
  IsEvent cancelled = true ≡ false
  IsEvent closed = true ≡ false

  abbrev pub count_modified : List Signal → ℕ
  count_modified [] = 0
  count_modified (event modified ∷ xs) = suc (count_modified xs)
  count_modified (x ∷ xs) = count_modified xs

  SameScaler-trans :
      (s t u : Scaler world) → SameScaler world s t → SameScaler world t u → SameScaler world s u
  SameScaler-trans s t u (a, b, c, d) (a', b', c', d') = (a ∙ a', b ∙ b', c ∙ c', d ∙ d')

  -- What events leave: nothing changed where none is Modified, a deleted pod otherwise.
  abbrev pub Handled : List Signal → Scaler world → Scaler world → Type 0
  Handled xs s t =
      ((count_modified xs ≡ 0) × (t ≡ s)) ⊎ ((0 < count_modified xs) × IsDeleted t.server)

  deleted_stays :
      (model : Bytes) (xs : List Signal) (s : Scaler world)
      → All IsEvent xs
      → IsDeleted s.server
      → IsDeleted (watch_run world watch_api config model xs (true, s)).1.server
  unfolding watch_run receive
  deleted_stays model [] s h gone = gone
  deleted_stays model (event modified ∷ xs) s (_, h) gone =
      deleted_stays model xs (restart_pod world config s) h (restart_pod-deletes s)
  deleted_stays model (event added ∷ xs) s (_, h) gone = deleted_stays model xs s h gone
  deleted_stays model (event deleted ∷ xs) s (_, h) gone = deleted_stays model xs s h gone
  deleted_stays model (event bookmark ∷ xs) s (_, h) gone = deleted_stays model xs s h gone
  deleted_stays model (event error ∷ xs) s (_, h) gone = deleted_stays model xs s h gone
  deleted_stays model (cancelled ∷ xs) s (bad, h) gone = cc
  deleted_stays model (closed ∷ xs) s (bad, h) gone = cc

  -- While the context and the channel last and the API server does not fail, the watch goes on. If
  -- one of the events is Modified, the pod is deleted or being deleted once they are handled; if none
  -- is, nothing has changed. Of the scaler only the cluster changes: the recorder is not told.
  pub watch_run-restarts :
      (model : Bytes) (xs : List Signal) (s : Scaler world)
      → All IsEvent xs
      → let (watching, after) = watch_run world watch_api config model xs (true, s) in
        (watching ≡ true) × SameScaler world after s × Handled xs s after
  unfolding watch_run receive
  watch_run-restarts model [] s h = (refl, (refl, refl, refl, refl), inl (refl, refl))
  watch_run-restarts model (event modified ∷ xs) s (_, h) =
      let t = restart_pod world config s in
      let (on, same_t, handled) = watch_run-restarts model xs t h in
      (
        on,
        SameScaler-trans (watch_run world watch_api config model xs (true, t)).1 t s same_t
            (restart_pod-same world config s),
        inr (omega arith, deleted_stays model xs t h (restart_pod-deletes s)),
      )
  watch_run-restarts model (event added ∷ xs) s (_, h) = watch_run-restarts model xs s h
  watch_run-restarts model (event deleted ∷ xs) s (_, h) = watch_run-restarts model xs s h
  watch_run-restarts model (event bookmark ∷ xs) s (_, h) = watch_run-restarts model xs s h
  watch_run-restarts model (event error ∷ xs) s (_, h) = watch_run-restarts model xs s h
  watch_run-restarts model (cancelled ∷ xs) s (bad, h) = cc
  watch_run-restarts model (closed ∷ xs) s (bad, h) = cc
