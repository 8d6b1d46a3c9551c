-- ===== src/Scaling/Reachable.antt =====
-- The states that the operations of K8sAutoScaler reach, whatever the cluster does in between.
use vllm_chill.Prelude.{
  true, false, Option, none, some, ℤ, pos, Error, Result, ok, err, panic, ◌≡◌, refl, ◌⊎◌, inl, inr,
  arith,
}
use vllm_chill.Scaling.{
  Cluster, Config, Scaler, new_scaler, update_activity, set_deployment, update_if, updated,
  wait_if_updated, wait_for_deployment_ready, release, scale_up, scale_down, check_and_scale,
  wait_for_scale_up, get_status,
}

module _ (cluster : Cluster) (config : Config) where
  open cluster use {Server, Deployment, get_deployment, update_deployment, set_replicas}

  -- One operation, or something that the cluster does by itself. An operation holds the lock.
  pub data Step : Scaler cluster → Scaler cluster → Type 0 where
    activity : (s : Scaler cluster) → Step s (update_activity cluster config s)
    up : (s : Scaler cluster) → Step s (scale_up cluster config s).1
    down : (s : Scaler cluster) → Step s (scale_down cluster config s).1
    check : (s : Scaler cluster) → Step s (check_and_scale cluster config s)
    elapse : (s : Scaler cluster) (server : Server) → Step s (record s { server = server })

  pub data Reach : Scaler cluster → Type 0 where
    start : (server : Server) → Reach (new_scaler cluster config server)
    step : (s t : Scaler cluster) → Reach s → Step s t → Reach t

  unfoldable pub IsSettled : Scaler cluster → Type 0
  IsSettled s =
      (s.is_scaling_up ≡ false)
      × ((s.current_replicas ≡ pos 0)
          ⊎ ((s.current_replicas ≡ config.min_replicas)
              ⊎ (s.current_replicas ≡ config.max_replicas)))

  -- what setting the deployment leaves of the scaler
  set_deployment-keeps :
      (n : ℤ) (s : Scaler cluster)
      → let t = (set_deployment cluster config n s).1 in
        (t.is_scaling_up ≡ s.is_scaling_up)
        × ((t.current_replicas ≡ s.current_replicas) ⊎ (t.current_replicas ≡ n))
  unfolding set_deployment
  set_deployment-keeps n s =
      let (r, server) = get_deployment config.namespace config.deployment s.server in
      update_if-keeps n r (record s { server = server })
    where
      updated-keeps :
          (n : ℤ) (e : Option Error) (s : Scaler cluster)
          → let t = (updated cluster config n e s).1 in
            (t.is_scaling_up ≡ s.is_scaling_up)
            × ((t.current_replicas ≡ s.current_replicas) ⊎ (t.current_replicas ≡ n))
      updated-keeps n none s = (refl, inr refl)
      updated-keeps n (some e) s = (refl, inl refl)

      update_if-keeps :
          (n : ℤ) (r : Result Deployment) (s : Scaler cluster)
          → let t = (update_if cluster config n r s).1 in
            (t.is_scaling_up ≡ s.is_scaling_up)
            × ((t.current_replicas ≡ s.current_replicas) ⊎ (t.current_replicas ≡ n))
      update_if-keeps n (ok d) s =
          let (e, server) = update_deployment config.namespace (set_replicas n d) s.server in
          updated-keeps n e (record s { server = server })
      update_if-keeps n (err e) s = (refl, inl refl)
      update_if-keeps n panic s = (refl, inl refl)

  release-settles :
      (r : Result (Unit {0}) × Scaler cluster)
      → let t = (release cluster config (wait_if_updated cluster config r)).1 in
        (t.is_scaling_up ≡ false) × (t.current_replicas ≡ r.1.current_replicas)
  unfolding wait_for_deployment_ready
  release-settles (ok u, s) = (refl, refl)
  release-settles (err e, s) = (refl, refl)
  release-settles (panic, s) = (refl, refl)

  up-IsSettled : (s : Scaler cluster) → IsSettled s → IsSettled (scale_up cluster config s).1
  unfolding IsSettled scale_up
  up-IsSettled s h =
      let s' = record s { is_scaling_up = true } in
      let r = set_deployment cluster config config.max_replicas s' in
      ground (arith, release-settles r, set_deployment-keeps config.max_replicas s')

  down-IsSettled : (s : Scaler cluster) → IsSettled s → IsSettled (scale_down cluster config s).1
  unfolding IsSettled scale_down
  down-IsSettled s h = ground (arith, set_deployment-keeps config.min_replicas s)

  check-IsSettled :
      (s : Scaler cluster) → IsSettled s → IsSettled (check_and_scale cluster config s)
  unfolding check_and_scale
  check-IsSettled s h = ground (arith, down-IsSettled s h)

  Step-IsSettled : (s t : Scaler cluster) → Step s t → IsSettled s → IsSettled t
  unfolding IsSettled update_activity
  Step-IsSettled _ _ (activity s) h = h
  Step-IsSettled _ _ (up s) h = up-IsSettled s h
  Step-IsSettled _ _ (down s) h = down-IsSettled s h
  Step-IsSettled _ _ (check s) h = check-IsSettled s h
  Step-IsSettled _ _ (elapse s server) h = h

  -- In every reachable state no scale-up is seen under way, and the number of replicas that the
  -- scaler keeps is the initial 0, the minimum, or the maximum.
  pub Reach-IsSettled : (s : Scaler cluster) → Reach s → IsSettled s
  unfolding IsSettled new_scaler
  Reach-IsSettled _ (start server) = (refl, inl refl)
  Reach-IsSettled _ (step s t r e) = Step-IsSettled s t e (Reach-IsSettled s r)

  -- In every reachable state the status says that no scale-up is under way, and WaitForScaleUp
  -- succeeds at once.
  pub wait_for_scale_up-at_once :
      (s : Scaler cluster)
      → Reach s
      → ((get_status cluster config s).is_scaling_up ≡ false)
        × (wait_for_scale_up cluster config s ≡ ok tt)
  unfolding get_status wait_for_scale_up IsSettled
  wait_for_scale_up-at_once s r = let (idle, n) = Reach-IsSettled s r in (idle, rw idle)
