-- ===== src/Examples/Scaling.antt =====
-- The theorems on the scaler of a deployment, at a deployment that is its number of replicas.
use vllm_chill.Prelude.{codes, map, [], ◌∷◌, ◌++◌, none, some, ℤ, pos, ok, ◌≡◌, refl}
use vllm_chill.Scaling.{
  Cluster, Config, Scaler, with_defaults, new_scaler, scale_up, scale_down, check_and_scale, tick,
  done, run_scaling_loop, set_deployment, wait_for_deployment_ready,
}
use vllm_chill.Scaling.Reachable.{Reach, start, step, up, IsSettled, Reach-IsSettled}
use vllm_chill.Scaling.Idle.{IsAtMinimum, idle_comes_down}
use vllm_chill.Scaling.Defaults.{defaults_never_scale_down}

abbrev tiny : Cluster
tiny = record {
  Server = ℤ;
  Deployment = ℤ;
  now = λ s. 900000000000;
  get_deployment = λ ns name s. (ok s, s);
  update_deployment = λ ns d s. (none, d);
  set_replicas = λ n d. n;
  spec_replicas = λ d. some d;
  ready_replicas = λ d. d;
  poll = λ f s. (ok tt, s);
}

abbrev given : Config
given = record {
  namespace = codes "vllm";
  deployment = codes "vllm";
  scale_down_delay = pos 0;
  check_interval = pos 0;
  min_replicas = pos 0;
  max_replicas = pos 0;
}

abbrev scaled_up : Scaler tiny
scaled_up = (scale_up tiny (with_defaults given) (new_scaler tiny (with_defaults given) (pos 0))).1

scaled_up-Reach : Reach tiny (with_defaults given) scaled_up
scaled_up-Reach =
    step (new_scaler tiny (with_defaults given) (pos 0)) scaled_up (start (pos 0))
      (up (new_scaler tiny (with_defaults given) (pos 0)))

Reach-IsSettled_example : IsSettled tiny (with_defaults given) scaled_up
Reach-IsSettled_example = Reach-IsSettled tiny (with_defaults given) scaled_up scaled_up-Reach

defaults_never_scale_down_example :
    (scale_down tiny (with_defaults given) scaled_up ≡ (ok tt, scaled_up))
    × (check_and_scale tiny (with_defaults given) scaled_up ≡ scaled_up)
defaults_never_scale_down_example =
    defaults_never_scale_down tiny given scaled_up refl refl scaled_up-Reach

-- four replicas at most, and one at least
abbrev wide : Config
wide = record (with_defaults given) { max_replicas = pos 4 }

abbrev unused_since_start : Scaler tiny
unused_since_start = record (scale_up tiny wide (new_scaler tiny wide (pos 0))).1 {
  last_activity = 0;
}

idle_comes_down_example : IsAtMinimum tiny wide (
    run_scaling_loop tiny wide
      (map tick (pos 4 ∷ []) ++ tick (pos 4) ∷ done ∷ [])
      unused_since_start)
unfolding with_defaults scale_up set_deployment wait_for_deployment_ready
idle_comes_down_example =
    idle_comes_down tiny wide (pos 4) (pos 4) (pos 4 ∷ []) (done ∷ []) unused_since_start refl refl
      refl
