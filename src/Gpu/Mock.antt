-- ===== src/Gpu/Mock.antt =====
-- The mock of NVML in pkg/stats/gpu_dummy.go and types_dummy.go, and the handler over it in
-- gpu_stats_dummy.go. The state is the two variables of the package.
pub mod Listed
use vllm_chill.Prelude.{
  ℕ, zero, suc, ◌+◌, ◌*◌, ◌-◌, ◌/◌, ◌%◌, ◌^◌, Bytes, codes, ◌++◌, same, Bool, true, false, not,
  Option, none, some, List, [], ◌∷◌, length, ℤ, pos, negsuc, format_int, Error, errorf, Result, ok,
  err, panic, if◌then◌else◌,
}
use vllm_chill.Gpu.Nvml.{Floats}
use vllm_chill.Gpu.Device.{Gpu, GpuStats, empty_gpu, watts, to_int64}
use vllm_chill.Gpu.Handler.{Response, text, encoded}

-- mockNVMLDevice
pub record MockDevice : Type 0 where
  pub index : ℕ
  pub name : Bytes
  pub uuid : Bytes
  pub temperature : ℕ
  pub utilization : ℕ
  pub memory_used : ℕ
  pub memory_total : ℕ
  pub power_usage : ℕ

-- mockDevices and nvmlInitialized
pub record Mock : Type 0 where
  pub mock_devices : List MockDevice
  pub nvml_initialized : Bool

abbrev pub gibibytes : ℕ → ℕ
gibibytes n = n * 1024 * 1024 * 1024

-- the devices that nvmlInit makes
unfoldable pub two_devices : List MockDevice
two_devices =
    record {
      index = 0;
      name = codes "Mock NVIDIA GPU 0";
      uuid = codes "GPU-00000000-0000-0000-0000-000000000000";
      temperature = 65;
      utilization = 75;
      memory_used = gibibytes 8;
      memory_total = gibibytes 16;
      power_usage = 250;
    }
    ∷ record {
      index = 1;
      name = codes "Mock NVIDIA GPU 1";
      uuid = codes "GPU-11111111-1111-1111-1111-111111111111";
      temperature = 60;
      utilization = 50;
      memory_used = gibibytes 4;
      memory_total = gibibytes 16;
      power_usage = 200;
    }
    ∷ []

-- nvmlInit, which returns no error
unfoldable pub nvml_init : Mock → Mock
nvml_init m =
    if m.nvml_initialized then m else record { mock_devices = two_devices; nvml_initialized = true }

abbrev pub not_initialized : Error
not_initialized = errorf (codes "NVML not initialized")

-- nvmlShutdown
unfoldable pub nvml_shutdown : Mock → Option Error × Mock
nvml_shutdown m =
    if m.nvml_initialized
    then (none, record m { nvml_initialized = false })
    else (some not_initialized, m)

-- nvmlDeviceGetCount, which getDeviceCount calls
unfoldable pub nvml_device_get_count : Mock → Result ℕ
nvml_device_get_count m =
    if m.nvml_initialized then ok (length m.mock_devices) else err not_initialized

abbrev pub nth_device : ℕ → List MockDevice → Option MockDevice
nth_device n [] = none
nth_device zero (v ∷ vs) = some v
nth_device (suc n) (v ∷ vs) = nth_device n vs

-- the device at an index that is not negative and less than the number of devices
abbrev pub device_at : ℤ → List MockDevice → Option MockDevice
device_at (pos n) vs = nth_device n vs
device_at (negsuc n) vs = none

-- nvmlDeviceGetHandleByIndex, which getDeviceByIndex calls
unfoldable pub nvml_device_get_handle_by_index : ℤ → Mock → Result MockDevice
unfolding format_int
nvml_device_get_handle_by_index i m =
    if m.nvml_initialized
    then elim (device_at i m.mock_devices) [
      | some v ↦ ok v
      | none ↦ err (errorf (codes "invalid device index: " ++ format_int i))
    ]
    else err not_initialized

-- nvmlDeviceGetTemperature of a device, as a uint32
unfoldable pub nvml_device_get_temperature : MockDevice → ℕ
nvml_device_get_temperature v = (v.temperature + v.index * 2) % 2 ^ 32

-- nvmlDeviceGetMemoryInfo of a device: used, free and total, as uint64
unfoldable pub nvml_device_get_memory_info : MockDevice → ℕ × ℕ × ℕ
nvml_device_get_memory_info v =
    (v.memory_used, (v.memory_total + 2 ^ 64 - v.memory_used) % 2 ^ 64, v.memory_total)

-- minus n
abbrev pub minus : ℕ → ℤ
minus zero = pos 0
minus (suc n) = negsuc n

-- the division of int64, which rounds to 0
abbrev pub quotient : ℤ → ℕ → ℤ
quotient (pos n) d = pos (n / d)
quotient (negsuc n) d = minus (suc n / d)

module _ (floats : Floats) (to_uint32 : floats.Float → ℕ) where
  open floats use {from_int, divide, multiply}

  -- nvmlDeviceGetUtilizationRates of a device; the conversion of a float to uint32 is a parameter
  unfoldable pub nvml_device_get_utilization_rates : MockDevice → ℕ × ℕ
  nvml_device_get_utilization_rates v = (
    v.utilization,
    to_uint32 (
        multiply (divide (from_int (pos v.memory_used)) (from_int (pos v.memory_total)))
          (from_int (pos 100))),
  )

  -- The body of the loop of getStats behind the handle. The handle is that of a device, so that none
  -- of the calls fails.
  unfoldable pub mock_gpu : ℕ → MockDevice → Gpu floats
  unfolding nvml_device_get_temperature nvml_device_get_utilization_rates
      nvml_device_get_memory_info
  mock_gpu i v =
      let (gpu_util, mem_util) = nvml_device_get_utilization_rates v in
      let (used, free, total) = nvml_device_get_memory_info v in
      record (empty_gpu floats i) {
        name = v.name;
        uuid = v.uuid;
        temperature = nvml_device_get_temperature v;
        utilization = from_int (pos gpu_util);
        memory_util = from_int (pos mem_util);
        memory_used = quotient (to_int64 used) (1024 * 1024);
        memory_total = quotient (to_int64 total) (1024 * 1024);
        power_draw = watts floats v.power_usage;
      }

  -- the loop of getStats, with the rounds that are left and the index
  unfoldable pub mock_gpus : ℕ → ℕ → Mock → List (Gpu floats)
  unfolding mock_gpu nvml_device_get_handle_by_index
  mock_gpus zero i m = []
  mock_gpus (suc n) i m =
      let rest = mock_gpus n (suc i) m in
      elim (nvml_device_get_handle_by_index (pos i) m) [
        | ok v ↦ mock_gpu i v ∷ rest
        | err e ↦ rest
        | panic ↦ rest
      ]

  -- getStats of a handler with this number of devices, which returns no error
  unfoldable pub get_stats : ℕ → ℕ → Mock → GpuStats floats
  unfolding mock_gpus
  get_stats now count m = record { timestamp = now; gpus = mock_gpus count 0 m }

  abbrev pub mock_header : List (Bytes × Bytes)
  mock_header =
      (codes "Content-Type", codes "application/json") ∷ (codes "X-GPU-Type", codes "mock") ∷ []

  -- ServeHTTP of the handler over the mock
  unfoldable pub serve_mock : Bytes → ℕ → ℕ → Mock → Response floats
  unfolding get_stats same
  serve_mock method now count m =
      if not (same method (codes "GET"))
      then record { status = 405; headers = []; body = text (codes "Method not allowed") }
      else record { status = 200; headers = mock_header; body = encoded (get_stats now count m) }

  -- Handle of the gin handler over the mock, which Handler calls
  unfoldable pub handle_mock : ℕ → ℕ → Mock → Response floats
  unfolding get_stats
  handle_mock now count m = record {
    status = 200;
    headers = (codes "X-GPU-Type", codes "mock") ∷ [];
    body = encoded (get_stats now count m);
  }

-- the number of devices after NewGPUStatsHandler, 0 where it cannot be read
abbrev pub count_or_zero : Result ℕ → ℕ
count_or_zero (ok n) = n
count_or_zero (err e) = 0
count_or_zero panic = 0

-- NewGPUStatsHandler over the mock
unfoldable pub new_mock_handler : Mock → ℕ × Mock
unfolding nvml_init nvml_device_get_count
new_mock_handler m = let m' = nvml_init m in (count_or_zero (nvml_device_get_count m'), m')
