-- ===== src/Command/Started.antt =====
-- When serve starts the proxy.
use vllm_chill.Prelude.{
  Option, none, some, Error, Result, ok, err, panic, arith, ◌≡◌, refl, ap, sym,
}
use vllm_chill.Kubernetes.Models.{ModelConfig}
use vllm_chill.Kubernetes.Crd.{get_model}
use vllm_chill.Kubernetes.Manager.{ensure_vllm_resources}
use vllm_chill.Rbac.{Access, verify_permissions}
use vllm_chill.Proxy.Config.{Config, ParseDuration, validate, k8s_config}
use vllm_chill.Proxy.Config.Valid.{IsUsable, config-validate_iff}
use vllm_chill.Proxy.Scaler.{World, Scaler}
use vllm_chill.Proxy.Background.{new_auto_scaler, start_with, start_if, new_scaler, started}
use vllm_chill.Proxy.Server.{Build, Service, Environ, new_service, set_version, target_of}
use vllm_chill.Command.{run_serve, serve_if, serve_with}

module _ (world : World) (access : Access) (parse : ParseDuration) (env : Environ)
    (build : Build) where
  -- What is known of a service that NewAutoScaler made.
  pub record IsStarted (flags : Config) (cluster : world.api.Server) (s : Service world)
      : Type 0 where
    pub usable : IsUsable parse flags
    pub model : ModelConfig
    pub found : (get_model world.api flags.model_id cluster).0 ≡ ok model
    pub ensured :
        (ensure_vllm_resources world.api
          (k8s_config flags)
          (get_model world.api flags.model_id cluster).1).0
        ≡ none
    pub active : s.scaler.active_model ≡ flags.model_id
    pub target : s.target_url ≡ target_of env
    pub shown : s.build ≡ build

  served :
      (flags : Config) (cluster : world.api.Server) (m : ModelConfig) (o : Option Error)
      (t u : Scaler world) (s : Service world)
      → IsUsable parse flags
      → (get_model world.api flags.model_id cluster).0 ≡ ok m
      → (ensure_vllm_resources world.api
          (k8s_config flags)
          (get_model world.api flags.model_id cluster).1).0
        ≡ o
      → started world o t ≡ ok u
      → t.active_model ≡ flags.model_id
      → serve_with world access parse env build (ok u) ≡ ok s
      → IsStarted flags cluster s
  unfolding new_service set_version
  served flags cluster m none t u s usable found ensured begun active e = record {
    usable = usable;
    model = m;
    found = found;
    ensured = ensured;
    active = ground arith;
    target = ground arith;
    shown = ground arith;
  }
  served flags cluster m (some bad) t u s usable found ensured begun active e = cc

  modelled :
      (flags : Config) (cluster : world.api.Server) (r : Result ModelConfig) (t u : Scaler world)
      (s : Service world)
      → IsUsable parse flags
      → (get_model world.api flags.model_id cluster).0 ≡ r
      → t.server ≡ (get_model world.api flags.model_id cluster).1
      → t.active_model ≡ flags.model_id
      → start_with world flags r t ≡ ok u
      → serve_with world access parse env build (ok u) ≡ ok s
      → IsStarted flags cluster s
  unfolding start_with
  modelled flags cluster (ok m) t u s usable found at active begun e =
      let (o, server) = ensure_vllm_resources world.api (k8s_config flags) t.server in
      served flags cluster m o (record t { server = server }) u s usable found
        (ap (λ v. (ensure_vllm_resources world.api (k8s_config flags) v).0) (sym at)) begun active e
  modelled flags cluster (err bad) t u s usable found at active begun e = cc
  modelled flags cluster panic t u s usable found at active begun e = cc

  checked :
      (flags : Config) (cluster : world.api.Server) (o : Option Error) (u : Scaler world)
      (s : Service world)
      → validate parse flags ≡ o
      → let (r, server) = get_model world.api flags.model_id cluster in
        start_if o
            (start_with world flags r (record (new_scaler world flags cluster) { server = server }))
          ≡ ok u
        → serve_with world access parse env build (ok u) ≡ ok s
        → IsStarted flags cluster s
  unfolding new_scaler
  checked flags cluster none u s valid begun e =
      let (r, server) = get_model world.api flags.model_id cluster in
      modelled flags cluster r (record (new_scaler world flags cluster) { server = server }) u s
        ((config-validate_iff parse flags).0 valid) refl refl refl begun e
  checked flags cluster (some bad) u s valid begun e = cc

  serve_with-IsStarted :
      (flags : Config) (cluster : world.api.Server) (r : Result (Scaler world)) (s : Service world)
      → new_auto_scaler world parse flags cluster ≡ r
      → serve_with world access parse env build r ≡ ok s
      → IsStarted flags cluster s
  unfolding new_auto_scaler
  serve_with-IsStarted flags cluster (ok u) s begun e =
      checked flags cluster (validate parse flags) u s refl begun e
  serve_with-IsStarted flags cluster (err bad) s begun e = cc
  serve_with-IsStarted flags cluster panic s begun e = cc

  serve_if-IsStarted :
      (flags : Config) (r : Result (Unit {0})) (cluster : world.api.Server) (s : Service world)
      → serve_if world access parse env build flags r cluster ≡ ok s
      → (r ≡ ok tt) × IsStarted flags cluster s
  unfolding serve_if
  serve_if-IsStarted flags (ok u) cluster s e = (
    refl,
    serve_with-IsStarted flags cluster (new_auto_scaler world parse flags cluster) s refl e,
  )
  serve_if-IsStarted flags (err bad) cluster s e = cc
  serve_if-IsStarted flags panic cluster s e = cc

  -- If serve comes to the call of Run, the permissions were verified; the configuration is usable; the
  -- model of the configuration was found, and what it needs in the cluster is there; it is the active
  -- model; and the target and the version are those of the environment and of the build.
  pub run_serve-IsStarted :
      (seen : access.Server → world.api.Server) (flags : Config) (c : access.Server)
      (s : Service world)
      → run_serve world access parse env build seen flags c ≡ ok s
      → ((verify_permissions access flags.namespace c).0 ≡ ok tt)
        × IsStarted flags (seen (verify_permissions access flags.namespace c).1) s
  unfolding run_serve
  run_serve-IsStarted seen flags c s e =
      let (r, c') = verify_permissions access flags.namespace c in
      serve_if-IsStarted flags r (seen c') s e
