-- ===== src/Scaling/Idle.antt =====
-- The scaling loop over a deployment that is not used.
use vllm_chill.Prelude.{
  map, ◌-◌, true, false, Option, none, some, List, [], ◌∷◌, ◌++◌, ℤ, pos, negsuc, less_int, Error,
  Result, ok, err, panic, ◌≡◌, refl, ap, ◌∙◌, arith,
}
use vllm_chill.Scaling.{
  Cluster, Config, Scaler, Signal, tick, done, set_deployment, update_if, updated, scale_down,
  check_and_scale, run_scaling_loop,
}

not_below_itself : (n : ℤ) → less_int n n ≡ false
not_below_itself (pos n) = ground arith
not_below_itself (negsuc n) = ground arith

module _ (cluster : Cluster) (config : Config) where
  open cluster use {Server, Deployment, now, get_deployment, update_deployment, set_replicas}

  -- no more replicas than the minimum
  unfoldable pub IsAtMinimum : Scaler cluster → Type 0
  IsAtMinimum s = less_int config.min_replicas s.current_replicas ≡ false

  updated-activity :
      (n : ℤ) (e : Option Error) (s : Scaler cluster)
      → (updated cluster config n e s).1.last_activity ≡ s.last_activity
  updated-activity n none s = refl
  updated-activity n (some e) s = refl

  update_if-activity :
      (n : ℤ) (r : Result Deployment) (s : Scaler cluster)
      → (update_if cluster config n r s).1.last_activity ≡ s.last_activity
  update_if-activity n (ok d) s = updated-activity n _ _
  update_if-activity n (err e) s = refl
  update_if-activity n panic s = refl

  check-activity :
      (s : Scaler cluster) → (check_and_scale cluster config s).last_activity ≡ s.last_activity
  unfolding check_and_scale scale_down set_deployment
  check-activity s =
      let (r, server) = get_deployment config.namespace config.deployment s.server in
      ground (arith, update_if-activity config.min_replicas r (record s { server = server }))

  check-IsAtMinimum :
      (s : Scaler cluster) → IsAtMinimum s → IsAtMinimum (check_and_scale cluster config s)
  unfolding check_and_scale IsAtMinimum
  check-IsAtMinimum s h = ground arith

  run-IsAtMinimum :
      (signals : List (Signal cluster)) (s : Scaler cluster)
      → IsAtMinimum s
      → IsAtMinimum (run_scaling_loop cluster config signals s)
  unfolding run_scaling_loop IsAtMinimum
  run-IsAtMinimum [] s h = h
  run-IsAtMinimum (tick server ∷ rest) s h =
      let s' = record s { server = server } in
      run-IsAtMinimum rest (check_and_scale cluster config s') (check-IsAtMinimum s' h)
  run-IsAtMinimum (done ∷ rest) s h = h

  module _ (server : Server) (d : Deployment) where
    set_deployment-sets :
        (s : Scaler cluster)
        → (get_deployment config.namespace config.deployment server).0 ≡ ok d
        → (update_deployment config.namespace
            (set_replicas config.min_replicas d)
            (get_deployment config.namespace config.deployment server).1).0
          ≡ none
        → (set_deployment cluster config config.min_replicas
            (record s { server = server })).1.current_replicas
          ≡ config.min_replicas
    unfolding set_deployment
    set_deployment-sets s got granted = rw (got, granted) refl

    -- checkAndScale of an idle deployment, where the cluster gives it and takes its update
    check-down :
        (s : Scaler cluster)
        → less_int config.scale_down_delay (pos (now server - s.last_activity)) ≡ true
        → (get_deployment config.namespace config.deployment server).0 ≡ ok d
        → (update_deployment config.namespace
            (set_replicas config.min_replicas d)
            (get_deployment config.namespace config.deployment server).1).0
          ≡ none
        → IsAtMinimum (check_and_scale cluster config (record s { server = server }))
    unfolding check_and_scale scale_down IsAtMinimum
    check-down s late got granted =
        let set = set_deployment-sets s got granted in
        ground (
          arith,
          ap (λ n. less_int config.min_replicas n) set ∙ not_below_itself config.min_replicas,
        )

    -- Ticks of the scaling loop with no activity and no scale-up in between. At one of them the
    -- service has been idle for longer than the delay, and the cluster gives the deployment and takes
    -- its update. Then the scaler has no more replicas than the minimum after it, whatever the loop
    -- receives before and after.
    pub idle_comes_down :
        (before : List Server) (after : List (Signal cluster)) (s : Scaler cluster)
        → less_int config.scale_down_delay (pos (now server - s.last_activity)) ≡ true
        → (get_deployment config.namespace config.deployment server).0 ≡ ok d
        → (update_deployment config.namespace
            (set_replicas config.min_replicas d)
            (get_deployment config.namespace config.deployment server).1).0
          ≡ none
        → IsAtMinimum (run_scaling_loop cluster config (map tick before ++ tick server ∷ after) s)
    unfolding run_scaling_loop
    idle_comes_down [] after s late got granted =
        let s' = record s { server = server } in
        run-IsAtMinimum after (check_and_scale cluster config s') (check-down s late got granted)
    idle_comes_down (earlier ∷ before) after s late got granted =
        let s' = record s { server = earlier } in
        idle_comes_down before after (check_and_scale cluster config s')
          (ap (λ a. less_int config.scale_down_delay (pos (now server - a))) (check-activity s')
            ∙ late)
          got granted
