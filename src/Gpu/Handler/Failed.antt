-- ===== src/Gpu/Handler/Failed.antt =====
-- NVML that cannot be initialised when the program starts.
use vllm_chill.Prelude.{codes, false, none, some, List, [], ◌∷◌, map, arith, ◌≡◌, ◌≢◌, refl}
use vllm_chill.Gpu.Nvml.{Nvml, Floats}
use vllm_chill.Gpu.Handler.{
  Handler, Response, text, init_nvml, new_handler, fresh, query_gpu_stats, answer, serve_http,
}
use vllm_chill.Gpu.Handler.Cached.{move, serve_each, run_all, serve_http-stale}

module _ (floats : Floats) (nvml : Nvml) where
  open nvml use {Driver}

  abbrev pub refusal : Response floats
  refusal = record {
    status = 500;
    headers = [];
    body = text (codes "Failed to query GPU: NVML not initialized");
  }

  serve_http-uninitialized :
      (h : Handler floats nvml)
      → h.cache ≡ none
      → h.nvml_initialized ≡ false
      → serve_http floats nvml (codes "GET") h ≡ (some refusal, h)
  unfolding fresh query_gpu_stats answer
  serve_http-uninitialized h empty unready =
      rw (serve_http-stale floats nvml h (ground (arith, empty))) (ground (arith, unready))

  all_refused :
      (envs : List (Driver → Driver)) (h : Handler floats nvml)
      → h.cache ≡ none
      → h.nvml_initialized ≡ false
      → serve_each floats nvml envs h
        ≡ (map (λ env. some refusal) envs, record h { driver = run_all floats nvml envs h.driver })
  all_refused [] h empty unready = refl
  all_refused (env ∷ envs) h empty unready = rw (
    serve_http-uninitialized (move floats nvml env h) empty unready,
    all_refused envs (move floats nvml env h) empty unready,
  )

  -- If NVML cannot be initialised when the handler is made, every later GET request is answered with
  -- status 500, whatever has happened to the driver since: NVML is not called, and nothing is cached.
  pub failure_is_final :
      (d : Driver) (envs : List (Driver → Driver))
      → (nvml.init d).0 ≢ 0
      → let h = new_handler floats nvml d in
        serve_each floats nvml envs h
        ≡ (map (λ env. some refusal) envs, record h { driver = run_all floats nvml envs h.driver })
  unfolding new_handler init_nvml
  failure_is_final d envs failed =
      let h = new_handler floats nvml d in
      all_refused envs h (ground (arith, failed)) (ground (arith, failed))
