-- ===== src/Proxy/Scaler/Lifecycle.antt =====
-- What managePod, waitForReady and ensureScaledUp leave in the recorder and in the scaler.
use vllm_chill.Prelude.{
  ℕ, zero, suc, Bool, true, false, Option, none, some, List, [], ◌∷◌, ◌++◌, Error, Result, ok, err,
  panic, ◌≡◌, ◌≢◌, refl, ◌∙◌, arith,
}
use vllm_chill.Kubernetes.Config.{Config}
use vllm_chill.Kubernetes.Models.{ModelConfig}
use vllm_chill.Kubernetes.Crd.{get_model}
use vllm_chill.Kubernetes.Manager.{get_pod, pod_exists, create_pod, delete_pod}
use vllm_chill.Proxy.Scaler.{
  World, Scaler, Event, vllm_state, startup, log_event, since, created, create_with, deleted,
  manage_pod, wait_loop, wait_for_ready, wait_if_created, release, scale_up_if, ensure_scaled_up,
}

-- The value of the state gauge after some events, from the value before them.
unfoldable pub gauge_from : ℕ → List Event → ℕ
gauge_from n [] = n
gauge_from n (vllm_state k ∷ es) = gauge_from k es
gauge_from n (e ∷ es) = gauge_from n es

pub gauge_from-append :
    (n : ℕ) (es fs : List Event) → gauge_from n (es ++ fs) ≡ gauge_from (gauge_from n es) fs
unfolding gauge_from
gauge_from-append n [] fs = refl
gauge_from-append n (vllm_state k ∷ es) fs = gauge_from-append k es fs
gauge_from-append n (e ∷ es) fs = gauge_from-append n es fs

-- The state that the recorder shows. It starts at 0, stopped.
abbrev pub gauge : List Event → ℕ
gauge = gauge_from 0

gauge-state : (es : List Event) (k : ℕ) → gauge (es ++ vllm_state k ∷ []) ≡ k
gauge-state es k = rw gauge_from-append (unfold gauge_from in refl)

module _ (world : World) (config : Config) where
  open world use {api}

  -- the gauge for the end of managePod
  abbrev pub managed_gauge : Bool → Result (Unit {0}) → ℕ → ℕ
  managed_gauge true (ok u) n = 1
  managed_gauge true (err e) n = 0
  managed_gauge true panic n = n
  managed_gauge false (ok u) n = 0
  managed_gauge false (err e) n = 2
  managed_gauge false panic n = n

  created-gauge :
      (start : ℕ) (e : Option Error) (s : Scaler world)
      → gauge s.events ≡ 1
      → let (o, s') = created world config start e s in gauge s'.events ≡ managed_gauge true o 0
  created-gauge start none s h = unfold created in simp gauge_from-append (unfold gauge_from in h)
  created-gauge start (some x) s h = unfold created in gauge-state _ 0

  create_with-gauge :
      (start : ℕ) (r : Result ModelConfig) (s : Scaler world)
      → gauge s.events ≡ 1
      → let (o, s') = create_with world config start r s in
        o ≢ panic → gauge s'.events ≡ managed_gauge true o 0
  create_with-gauge start (ok m) s h np =
      let (e, server) = create_pod api config m s.server in
      unfold create_with in created-gauge start e (record s { server = server }) h
  create_with-gauge start (err e) s h np = unfold create_with in gauge-state _ 0
  create_with-gauge start panic s h np = absurd (np (unfold create_with in refl))

  pub deleted-gauge :
      (start : ℕ) (e : Option Error) (s : Scaler world)
      → let (o, s') = deleted world config start e s in gauge s'.events ≡ managed_gauge false o 0
  deleted-gauge start none s = unfold deleted in gauge-state _ 0
  deleted-gauge start (some x) s = unfold deleted in gauge-state _ 2

  -- After managePod the recorder shows 1, starting, for a pod that was created and 0, stopped, for
  -- one that was not; 0 for a pod that was deleted and 2, running, for one that was not. The API
  -- does not panic.
  pub manage_pod-gauge :
      (create : Bool) (s : Scaler world)
      → (manage_pod world config create s).0 ≢ panic
      → gauge (manage_pod world config create s).1.events
        ≡ managed_gauge create (manage_pod world config create s).0 0
  unfolding manage_pod
  manage_pod-gauge true s h =
      let s' = log_event world config (vllm_state 1) s in
      let (r, server) = get_model api s'.active_model s'.server in
      create_with-gauge (world.now s.server) r (record s' { server = server })
        (gauge-state s.events 1) h
  manage_pod-gauge false s h =
      let s' = log_event world config (vllm_state 3) s in
      let (e, server) = delete_pod api config s'.server in
      deleted-gauge (world.now s.server) e (record s' { server = server })

  wait_loop-ok :
      (start ticks : ℕ) (s : Scaler world)
      → (wait_loop world config start ticks s).0 ≡ ok tt
      → gauge (wait_loop world config start ticks s).1.events ≡ 2
  unfolding wait_loop
  wait_loop-ok start zero s h = cc
  wait_loop-ok start (suc ticks) s h =
      let s' = record s { server = (get_pod api config s.server).1 } in
      ground (
        arith,
        wait_loop-ok start ticks s',
        gauge-state (s.events ++ startup (since world config start s') ∷ []) 2,
      )

  wait_loop-ready :
      (start ticks : ℕ) (s : Scaler world)
      → (wait_loop world config start ticks s).0 ≢ ok tt
      → (wait_loop world config start ticks s).0 ≢ panic
      → gauge (wait_loop world config start ticks s).1.events ≡ 0
  unfolding wait_loop
  wait_loop-ready start zero s h np = gauge-state s.events 0
  wait_loop-ready start (suc ticks) s h np =
      let s' = record s { server = (get_pod api config s.server).1 } in
      ground (arith, wait_loop-ready start ticks s')

  -- the flag of a goroutine that is creating the pod
  wait_loop-flag :
      (start ticks : ℕ) (s : Scaler world)
      → (wait_loop world config start ticks s).1.is_scaling_up ≡ s.is_scaling_up
  unfolding wait_loop
  wait_loop-flag start zero s = refl
  wait_loop-flag start (suc ticks) s =
      let s' = record s { server = (get_pod api config s.server).1 } in
      ground (arith, wait_loop-flag start ticks s')

  release-ok :
      (ticks : ℕ) (r : Result (Unit {0}) × Scaler world)
      → (release world config (wait_if_created world config ticks r)).0 ≡ ok tt
      → gauge (release world config (wait_if_created world config ticks r)).1.events ≡ 2
  unfolding wait_for_ready
  release-ok ticks (ok u, s) h = wait_loop-ok (world.now s.server) ticks s h
  release-ok ticks (err e, s) h = cc
  release-ok ticks (panic, s) h = cc

  scale_up_if-ok :
      (others : Scaler world → Scaler world) (ticks : ℕ) (r : Result Bool) (s : Scaler world)
      → s.is_scaling_up ≡ false
      → (scale_up_if world config others ticks r s).0 ≡ ok tt
      → (gauge (scale_up_if world config others ticks r s).1.events ≡ 2)
        × ((scale_up_if world config others ticks r s).1.is_scaling_up ≡ false)
  unfolding scale_up_if wait_for_ready
  scale_up_if-ok others ticks (err e) s idle h = cc
  scale_up_if-ok others ticks panic s idle h = cc
  scale_up_if-ok others ticks (ok true) s idle h = (
    wait_loop-ok (world.now s.server) ticks s h,
    wait_loop-flag (world.now s.server) ticks s ∙ idle,
  )
  scale_up_if-ok others ticks (ok false) s idle h =
      let r = manage_pod world config true (record s { is_scaling_up = true }) in
      ground (arith, release-ok ticks r)

  -- If ensureScaledUp succeeds while no other goroutine is creating the pod, the recorder shows 2,
  -- running, and the flag of a creation under way is down.
  pub scaled_up-running :
      (others : Scaler world → Scaler world) (ticks : ℕ) (s : Scaler world)
      → s.is_scaling_up ≡ false
      → (ensure_scaled_up world config others ticks s).0 ≡ ok tt
      → (gauge (ensure_scaled_up world config others ticks s).1.events ≡ 2)
        × ((ensure_scaled_up world config others ticks s).1.is_scaling_up ≡ false)
  unfolding ensure_scaled_up
  scaled_up-running others ticks s idle h =
      let (r, server) = pod_exists api config s.server in
      scale_up_if-ok others ticks r (record s { server = server }) idle h

  -- A goroutine that finds another one creating the pod reports success when it is woken, whatever
  -- became of that creation.
  pub waiter_succeeds :
      (others : Scaler world → Scaler world) (ticks : ℕ) (s : Scaler world)
      → s.is_scaling_up ≡ true
      → (pod_exists api config s.server).0 ≡ ok false
      → ensure_scaled_up world config others ticks s
        ≡ (ok tt, others (record s { server = (pod_exists api config s.server).1 }))
  unfolding ensure_scaled_up scale_up_if
  waiter_succeeds others ticks s busy absent = rw (absent, busy)

  scale_up_if-idle :
      (others : Scaler world → Scaler world) (ticks : ℕ) (r : Result Bool) (s : Scaler world)
      → s.is_scaling_up ≡ false
      → (scale_up_if world config others ticks r s).1.is_scaling_up ≡ false
  unfolding scale_up_if wait_for_ready
  scale_up_if-idle others ticks (err e) s idle = idle
  scale_up_if-idle others ticks panic s idle = idle
  scale_up_if-idle others ticks (ok true) s idle =
      wait_loop-flag (world.now s.server) ticks s ∙ idle
  scale_up_if-idle others ticks (ok false) s idle = rw idle

  pub ensure_scaled_up-idle :
      (others : Scaler world → Scaler world) (ticks : ℕ) (s : Scaler world)
      → s.is_scaling_up ≡ false
      → (ensure_scaled_up world config others ticks s).1.is_scaling_up ≡ false
  unfolding ensure_scaled_up
  ensure_scaled_up-idle others ticks s idle =
      let (r, server) = pod_exists api config s.server in
      scale_up_if-idle others ticks r (record s { server = server }) idle
