-- ===== src/Scaling/Defaults.antt =====
-- What the defaults of NewK8sAutoScaler make of a configuration without replica counts.
use vllm_chill.Prelude.{false, ℤ, pos, less_int, ok, ◌≡◌, ◌⊎◌, inl, inr, arith}
use vllm_chill.Scaling.{Cluster, Config, Scaler, with_defaults, scale_down, check_and_scale}
use vllm_chill.Scaling.Reachable.{Reach, IsSettled, Reach-IsSettled}

not_above :
    (n low high : ℤ)
    → low ≡ pos 1
    → high ≡ pos 1
    → (n ≡ pos 0) ⊎ ((n ≡ low) ⊎ (n ≡ high))
    → less_int low n ≡ false
not_above n low high p q (inl h) = rw (p, h)
not_above n low high p q (inr (inl h)) = rw (h, p)
not_above n low high p q (inr (inr h)) = rw (h, p, q)

module _ (cluster : Cluster) (given : Config) where
  abbrev config : Config
  config = with_defaults given

  at_minimum :
      (s : Scaler cluster)
      → given.min_replicas ≡ pos 0
      → given.max_replicas ≡ pos 0
      → Reach cluster config s
      → less_int config.min_replicas s.current_replicas ≡ false
  unfolding with_defaults IsSettled
  at_minimum s no_min no_max r =
      not_above s.current_replicas config.min_replicas config.max_replicas (rw no_min) (rw no_max)
        (Reach-IsSettled cluster config s r).1

  -- With the default replica counts no reachable state is scaled down: neither ScaleDown nor
  -- checkAndScale changes anything, however long the service has been idle.
  pub defaults_never_scale_down :
      (s : Scaler cluster)
      → given.min_replicas ≡ pos 0
      → given.max_replicas ≡ pos 0
      → Reach cluster (with_defaults given) s
      → (scale_down cluster (with_defaults given) s ≡ (ok tt, s))
        × (check_and_scale cluster (with_defaults given) s ≡ s)
  unfolding scale_down check_and_scale
  defaults_never_scale_down s no_min no_max r =
      let low = at_minimum s no_min no_max r in (rw low, ground (arith))
