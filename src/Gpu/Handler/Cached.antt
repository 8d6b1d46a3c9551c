-- ===== src/Gpu/Handler/Cached.antt =====
-- The cache of the statistics.
use vllm_chill.Prelude.{ℕ, ◌<◌, codes, same, Bytes, Option, none, some, List, [], ◌∷◌, ◌≡◌}
use vllm_chill.Gpu.Nvml.{Nvml, Floats}
use vllm_chill.Gpu.Device.{GpuStats}
use vllm_chill.Gpu.Handler.{
  Handler, Response, encoded, json_headers, fresh, query_gpu_stats, answer, serve_http,
}

abbrev get : Bytes
get = codes "GET"

module _ (floats : Floats) (nvml : Nvml) where
  open nvml use {Driver, now}

  abbrev pub hit : GpuStats floats → Response floats
  hit st = record { status = 200; headers = json_headers (codes "HIT"); body = encoded st }

  abbrev pub miss : GpuStats floats → Response floats
  miss st = record { status = 200; headers = json_headers (codes "MISS"); body = encoded st }

  abbrev pub move : (Driver → Driver) → Handler floats nvml → Handler floats nvml
  move env h = record h { driver = env h.driver }

  -- GET requests, each after something has happened to the driver and the clock.
  abbrev pub serve_each :
      List (Driver → Driver)
      → Handler floats nvml
      → List (Option (Response floats)) × Handler floats nvml
  serve_each [] h = ([], h)
  serve_each (env ∷ envs) h =
      let (r, h') = serve_http floats nvml (codes "GET") (move env h) in
      let (rs, end) = serve_each envs h' in (r ∷ rs, end)

  abbrev pub run_all : List (Driver → Driver) → Driver → Driver
  run_all [] d = d
  run_all (env ∷ envs) d = run_all envs (env d)

  -- The clock stays below a time while this happens.
  abbrev pub Before : ℕ → List (Driver → Driver) → Driver → Type 0
  Before t [] d = Unit {0}
  Before t (env ∷ envs) d = (now (env d) < t) × Before t envs (env d)

  pub serve_http-cached :
      (h : Handler floats nvml) (st : GpuStats floats)
      → fresh floats nvml h ≡ some st
      → serve_http floats nvml (codes "GET") h ≡ (some (hit st), h)
  unfolding serve_http same
  serve_http-cached h st e = rw e

  pub serve_http-stale :
      (h : Handler floats nvml)
      → fresh floats nvml h ≡ none
      → serve_http floats nvml (codes "GET") h ≡ answer floats nvml (query_gpu_stats floats nvml h)
  unfolding serve_http same
  serve_http-stale h e = rw e
