-- ===== src/Examples/Watches.antt =====
-- The theorems on the watch of the active model, at the cluster of Setup.
use vllm_chill.Prelude.{
  ℕ, zero, suc, codes, same, true, false, none, some, Error, err, [], ◌∷◌, ok, ◌⊎◌, inl, inr, ◌≡◌,
  refl,
}
use vllm_chill.Kubernetes.Pod.{Pod}
use vllm_chill.Kubernetes.Watch.{WatchApi, find_version, watch_from, watch_model}
use vllm_chill.Proxy.Watch.{added, modified, closed, event, watch_run}
use vllm_chill.Proxy.Watch.Restarted.{Answers, Handled, watch_run-restarts}
use vllm_chill.Proxy.Watch.Lost.{CanOpen, lost_watch_is_final}
use vllm_chill.Proxy.Background.Effects.{SameScaler}
use vllm_chill.Examples.Setup.{
  small_world, small_api, cluster_config, idle_scaler, ready_pod, not_there, answer_pod,
}

abbrev small_watch : WatchApi small_api
small_watch = record { resource_version = λ u. codes "7"; watch = λ field version s. (none, s) }

small_get :
    (s : ℕ)
    → ((p : Pod) × (answer_pod s ≡ ok p))
      ⊎ ((e : Error) × (answer_pod s ≡ err e) × (e.not_found ≡ true) × (s ≡ 0))
small_get zero = inr (not_there, refl, refl, refl)
small_get (suc n) = inl (ready_pod, refl)

-- the pod is deleted where there is none
abbrev small_answers : Answers small_world cluster_config
small_answers = record { IsDeleted = λ s. s ≡ 0; deletes = λ s. refl; get = small_get }

watch_run-restarts_example :
    let xs = event added ∷ event modified ∷ event modified ∷ [] in
    let (watching, after) =
      watch_run small_world small_watch cluster_config (codes "a") xs (true, idle_scaler 1) in
    (watching ≡ true)
    × SameScaler small_world after (idle_scaler 1)
    × Handled small_world small_watch cluster_config small_answers xs (idle_scaler 1) after
watch_run-restarts_example =
    watch_run-restarts small_world small_watch cluster_config small_answers (codes "a")
      (event added ∷ event modified ∷ event modified ∷ []) (idle_scaler 1) (tt, (tt, (tt, tt)))

-- a client whose Watch fails
abbrev refusing_watch : WatchApi small_api
refusing_watch = record small_watch { watch = λ field version s. (some not_there, s) }

cannot_open : ¬ CanOpen small_world refusing_watch (codes "model-of-a") 1
cannot_open (us, u, listed, first, some_version, opens) = cc

lost_watch_is_final_example :
    watch_run small_world refusing_watch cluster_config
      (codes "model-of-a")
      (closed ∷ event modified ∷ [])
      (true, idle_scaler 1)
    ≡ (false, idle_scaler 1)
unfolding watch_model watch_from find_version same
lost_watch_is_final_example =
    lost_watch_is_final small_world refusing_watch cluster_config (codes "model-of-a")
      (event modified ∷ []) (idle_scaler 1) cannot_open
