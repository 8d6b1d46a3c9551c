-- ===== src/Gpu/Handler.antt =====
-- The handler of pkg/stats/gpu_stats.go with its cache, and the gin handler of gin_gpu_stats.go over it.
pub mod Cached
pub mod Failed
pub mod Listed
pub mod Gin
use vllm_chill.Prelude.{
  ℕ, zero, suc, ◌+◌, ◌-◌, Bytes, codes, same, Bool, true, false, not, ◌&&◌, ltb, ◌==◌, Option, none,
  some, List, [], ◌∷◌, ◌++◌, ℤ, pos, negsuc, Error, errorf, Result, ok, err, panic, if◌then◌else◌,
}
use vllm_chill.Gpu.Nvml.{Nvml, Floats}
use vllm_chill.Gpu.Device.{Gpu, GpuStats, query_device_stats}

-- The body of a reply: a text, the statistics as JSON, or an object with the field "error".
pub data Body (floats : Floats) : Type 0 where
  text : Bytes → Body floats
  encoded : GpuStats floats → Body floats
  error_object : Bytes → Body floats

-- A reply with the headers that the handlers set.
pub record Response (floats : Floats) : Type 0 where
  pub status : ℕ
  pub headers : List (Bytes × Bytes)
  pub body : Body floats

-- GPUStatsHandler, with the state of the driver
pub record Handler (floats : Floats) (nvml : Nvml) : Type 0 where
  pub cache : Option (GpuStats floats)
  pub cache_time : ℕ
  pub cache_ttl : ℕ
  pub nvml_initialized : Bool
  pub driver : nvml.Driver

abbrev pub json_headers : Bytes → List (Bytes × Bytes)
json_headers cache =
    (codes "Content-Type", codes "application/json") ∷ (codes "X-Cache", cache) ∷ []

abbrev pub cache_header : Bytes → List (Bytes × Bytes)
cache_header cache = (codes "X-Cache", cache) ∷ []

module _ (floats : Floats) (nvml : Nvml) where
  open nvml use {Driver}

  abbrev failure : Bytes → ℕ → Error
  failure what ret = errorf (what ++ nvml.error_string ret)

  -- initNVML
  unfoldable pub init_nvml : Handler floats nvml → Option Error × Handler floats nvml
  init_nvml h =
      let (ret, d) = nvml.init h.driver in
      if ret == 0
      then (none, record h { nvml_initialized = true; driver = d })
      else (some (failure (codes "NVML Init failed: ") ret), record h { driver = d })

  -- NewGPUStatsHandler; a second is 10^9 nanoseconds. The error is only logged.
  unfoldable pub new_handler : Driver → Handler floats nvml
  unfolding init_nvml
  new_handler d =
      (init_nvml record {
        cache = none;
        cache_time = 0;
        cache_ttl = 1000000000;
        nvml_initialized = false;
        driver = d;
      }).1

  -- Shutdown
  unfoldable pub shutdown : Handler floats nvml → Option Error × Handler floats nvml
  shutdown h =
      let (ret, d) = nvml.shutdown h.driver in
      if not h.nvml_initialized
      then (none, h)
      else if ret == 0
      then (none, record h { nvml_initialized = false; driver = d })
      else (some (failure (codes "NVML Shutdown failed: ") ret), record h { driver = d })

  -- The loop over the devices: how many are left, and the index of the next one.
  unfoldable pub query_devices : ℕ → ℕ → Driver → List (Gpu floats) × Driver
  query_devices zero i d = ([], d)
  query_devices (suc left) i d =
      let (device, ret, d') = nvml.device_get_handle_by_index i d in
      let (gpu, d'') = query_device_stats floats nvml i device d' in
      let (rest, end) = query_devices left (suc i) (if ret == 0 then d'' else d') in
      (if ret == 0 then gpu ∷ rest else rest, end)

  abbrev pub result_of : ℕ → List (Gpu floats) → Result (GpuStats floats)
  result_of timestamp [] = err (errorf (codes "failed to query any GPUs"))
  result_of timestamp (g ∷ gs) = ok (record { timestamp = timestamp; gpus = g ∷ gs })

  -- what queryGPUStats does with the number of devices; a negative capacity makes `make` panic
  unfoldable pub query_counted : ℤ → Driver → Result (GpuStats floats) × Driver
  query_counted (pos zero) d = (err (errorf (codes "no GPUs found")), d)
  query_counted (pos (suc n)) d =
      let (gpus, d') = query_devices (suc n) 0 d in (result_of (nvml.now d) gpus, d')
  query_counted (negsuc n) d = (panic, d)

  abbrev with_driver :
      Handler floats nvml
      → Result (GpuStats floats) × Driver
      → Result (GpuStats floats) × Handler floats nvml
  with_driver h (r, d) = (r, record h { driver = d })

  -- queryGPUStats
  unfoldable pub query_gpu_stats :
      Handler floats nvml → Result (GpuStats floats) × Handler floats nvml
  query_gpu_stats h =
      let (count, ret, d) = nvml.device_get_count h.driver in
      if not h.nvml_initialized
      then (err (errorf (codes "NVML not initialized")), h)
      else if ret == 0
      then with_driver h (query_counted count d)
      else (err (failure (codes "failed to get device count: ") ret), record h { driver = d })

  -- the cached statistics, if there are any and they are not too old
  unfoldable pub fresh : Handler floats nvml → Option (GpuStats floats)
  fresh h = if ltb (nvml.now h.driver - h.cache_time) h.cache_ttl then h.cache else none

  abbrev store : GpuStats floats → Handler floats nvml → Handler floats nvml
  store st h = record h { cache = some st; cache_time = nvml.now h.driver }

  -- ServeHTTP once queryGPUStats has answered; no reply for a panic
  unfoldable pub answer :
      Result (GpuStats floats) × Handler floats nvml
      → Option (Response floats) × Handler floats nvml
  answer (ok st, h) = (
    some (record { status = 200; headers = json_headers (codes "MISS"); body = encoded st }),
    store st h,
  )
  answer (err e, h) = (
    some (record {
      status = 500;
      headers = [];
      body = text (codes "Failed to query GPU: " ++ e.message);
    }),
    h,
  )
  answer (panic, h) = (none, h)

  -- ServeHTTP
  unfoldable pub serve_http :
      Bytes → Handler floats nvml → Option (Response floats) × Handler floats nvml
  unfolding same
  serve_http method h =
      if not (same method (codes "GET"))
      then (
        some (record { status = 405; headers = []; body = text (codes "Method not allowed") }),
        h,
      )
      else elim (fresh h) [
        | some st ↦ (
          some (record { status = 200; headers = json_headers (codes "HIT"); body = encoded st }),
          h,
        )
        | none ↦ answer (query_gpu_stats h)
      ]

  -- the gin handler once queryGPUStats has answered
  unfoldable pub gin_answer :
      Result (GpuStats floats) × Handler floats nvml
      → Option (Response floats) × Handler floats nvml
  gin_answer (ok st, h) = (
    some (record { status = 200; headers = cache_header (codes "MISS"); body = encoded st }),
    store st h,
  )
  gin_answer (err e, h) = (
    some (record {
      status = 500;
      headers = [];
      body = error_object (codes "Failed to query GPU: " ++ e.message);
    }),
    h,
  )
  gin_answer (panic, h) = (none, h)

  -- Handler of GinGPUStatsHandler
  unfoldable pub gin_handler : Handler floats nvml → Option (Response floats) × Handler floats nvml
  gin_handler h = elim (fresh h) [
    | some st ↦
        (some (record { status = 200; headers = cache_header (codes "HIT"); body = encoded st }), h)
    | none ↦ gin_answer (query_gpu_stats h)
  ]
