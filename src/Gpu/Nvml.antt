-- ===== src/Gpu/Nvml.antt =====
-- What pkg/stats calls of go-nvml, over the state of the driver and of the machine, and the float64 of
-- Go. A call returns its value, its return code and the next state; the code 0 is nvml.SUCCESS.
use vllm_chill.Prelude.{ℕ, Bytes, ℤ}

pub record Nvml : Type 1 where
  pub Driver : Type 0
  pub Device : Type 0
  -- nvml.Init and nvml.Shutdown
  pub init : Driver → ℕ × Driver
  pub shutdown : Driver → ℕ × Driver
  pub device_get_count : Driver → ℤ × ℕ × Driver
  pub device_get_handle_by_index : ℕ → Driver → Device × ℕ × Driver
  pub get_cuda_compute_capability : Device → Driver → ℤ × ℤ × ℕ × Driver
  pub get_name : Device → Driver → Bytes × ℕ × Driver
  pub get_uuid : Device → Driver → Bytes × ℕ × Driver
  -- the field Gpu of the utilization rates
  pub get_utilization_rates : Device → Driver → ℕ × ℕ × Driver
  -- the fields Used and Total, in bytes
  pub get_memory_info : Device → Driver → ℕ × ℕ × ℕ × Driver
  pub get_temperature : Device → Driver → ℕ × ℕ × Driver
  pub get_power_usage : Device → Driver → ℕ × ℕ × Driver
  pub get_power_management_limit : Device → Driver → ℕ × ℕ × Driver
  pub get_fan_speed : Device → Driver → ℕ × ℕ × Driver
  -- the first of the two values that these return
  pub get_encoder_utilization : Device → Driver → ℕ × ℕ × Driver
  pub get_decoder_utilization : Device → Driver → ℕ × ℕ × Driver
  pub error_string : ℕ → Bytes
  -- time.Now
  pub now : Driver → ℕ

pub record Floats : Type 1 where
  pub Float : Type 0
  -- the conversion of an integer
  pub from_int : ℤ → Float
  pub divide : Float → Float → Float
  pub multiply : Float → Float → Float
