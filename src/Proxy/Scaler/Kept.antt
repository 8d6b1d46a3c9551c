-- ===== src/Proxy/Scaler/Kept.antt =====
-- What the management of the pod leaves alone: whatever depends neither on the state of the server,
-- nor on what was recorded, nor on the flag of a creation under way.
use vllm_chill.Prelude.{
  ℕ, zero, suc, Bool, true, false, Option, none, some, List, [], ◌∷◌, ◌++◌, ◌-◌, Error, Result, ok,
  err, panic, ◌≡◌, refl, ◌∙◌, arith,
}
use vllm_chill.Kubernetes.Config.{Config}
use vllm_chill.Kubernetes.Models.{ModelConfig}
use vllm_chill.Kubernetes.Crd.{get_model}
use vllm_chill.Kubernetes.Manager.{get_pod, pod_exists, create_pod, delete_pod}
use vllm_chill.Proxy.Scaler.{
  World, Scaler, Event, startup, vllm_state, log_event, created, create_with, deleted, manage_pod,
  wait_loop, wait_for_ready, wait_if_created, release, scale_up_if, ensure_scaled_up,
}

module _ (world : World) (config : Config) {A : Type 0} (view : Scaler world → A) where
  open world use {api, now}

  pub record IsApart : Type 0 where
    pub server : (v : api.Server) (s : Scaler world) → view (record s { server = v }) ≡ view s
    pub events : (es : List Event) (s : Scaler world) → view (record s { events = es }) ≡ view s
    pub flag : (b : Bool) (s : Scaler world) → view (record s { is_scaling_up = b }) ≡ view s

  module _ (apart : IsApart) where
    created-kept :
        (start : ℕ) (e : Option Error) (s : Scaler world)
        → view (created world config start e s).1 ≡ view s
    unfolding created
    created-kept start none s = apart.events _ s
    created-kept start (some e) s = apart.events _ s

    deleted-kept :
        (start : ℕ) (e : Option Error) (s : Scaler world)
        → view (deleted world config start e s).1 ≡ view s
    unfolding deleted
    deleted-kept start none s = apart.events _ s
    deleted-kept start (some e) s = apart.events _ s

    create_with-kept :
        (start : ℕ) (r : Result ModelConfig) (s : Scaler world)
        → view (create_with world config start r s).1 ≡ view s
    unfolding create_with
    create_with-kept start (ok m) s =
        let (e, server) = create_pod api config m s.server in
        created-kept start e (record s { server = server }) ∙ apart.server server s
    create_with-kept start (err e) s = apart.events _ s
    create_with-kept start panic s = refl

    pub manage_pod-kept :
        (create : Bool) (s : Scaler world) → view (manage_pod world config create s).1 ≡ view s
    unfolding manage_pod
    manage_pod-kept true s =
        let s' = log_event world config (vllm_state 1) s in
        let (r, server) = get_model api s'.active_model s'.server in
        create_with-kept (now s.server) r (record s' { server = server })
        ∙ apart.server server s'
        ∙ apart.events _ s
    manage_pod-kept false s =
        let s' = log_event world config (vllm_state 3) s in
        let (e, server) = delete_pod api config s'.server in
        deleted-kept (now s.server) e (record s' { server = server })
        ∙ apart.server server s'
        ∙ apart.events _ s

    wait_loop-kept :
        (start ticks : ℕ) (s : Scaler world)
        → view (wait_loop world config start ticks s).1 ≡ view s
    unfolding wait_loop
    wait_loop-kept start zero s = apart.events _ s
    wait_loop-kept start (suc ticks) s =
        let s' = record s { server = (get_pod api config s.server).1 } in
        ground (
          arith,
          wait_loop-kept start ticks s',
          apart.server s'.server s,
          apart.events ((s.events ++ startup (now s'.server - start) ∷ []) ++ vllm_state 2 ∷ []) s',
        )

    release-kept :
        (ticks : ℕ) (r : Result (Unit {0}) × Scaler world)
        → view (release world config (wait_if_created world config ticks r)).1 ≡ view r.1
    unfolding wait_for_ready
    release-kept ticks (ok u, s) = apart.flag false _ ∙ wait_loop-kept (now s.server) ticks s
    release-kept ticks (err e, s) = apart.flag false s
    release-kept ticks (panic, s) = apart.flag false s

    scale_up_if-kept :
        (others : Scaler world → Scaler world) (ticks : ℕ) (r : Result Bool) (s : Scaler world)
        → s.is_scaling_up ≡ false
        → view (scale_up_if world config others ticks r s).1 ≡ view s
    unfolding scale_up_if wait_for_ready
    scale_up_if-kept others ticks (err e) s idle = refl
    scale_up_if-kept others ticks panic s idle = refl
    scale_up_if-kept others ticks (ok true) s idle = wait_loop-kept (now s.server) ticks s
    scale_up_if-kept others ticks (ok false) s idle =
        let t = record s { is_scaling_up = true } in
        ground (
          arith,
          release-kept ticks (manage_pod world config true t),
          manage_pod-kept true t,
          apart.flag true s,
        )

    pub ensure_scaled_up-kept :
        (others : Scaler world → Scaler world) (ticks : ℕ) (s : Scaler world)
        → s.is_scaling_up ≡ false
        → view (ensure_scaled_up world config others ticks s).1 ≡ view s
    unfolding ensure_scaled_up
    ensure_scaled_up-kept others ticks s idle =
        let (r, server) = pod_exists api config s.server in
        scale_up_if-kept others ticks r (record s { server = server }) idle ∙ apart.server server s
