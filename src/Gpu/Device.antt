-- ===== src/Gpu/Device.antt =====
-- queryDeviceStats of pkg/stats/gpu_stats.go, and the types of the statistics.
pub mod Kept
pub mod Memory
use vllm_chill.Prelude.{
  ℕ, ◌-◌, ◌/◌, ◌%◌, ◌^◌, Bytes, Bool, ltb, ◌==◌, List, [], ◌∷◌, foldl, ℤ, pos, negsuc, less_int,
  if◌then◌else◌,
}
use vllm_chill.Gpu.Nvml.{Nvml, Floats}

-- int64(n), where the bit pattern of n stands for the number
abbrev pub to_int64 : ℕ → ℤ
to_int64 n = let w = n % 2 ^ 64 in if ltb w (2 ^ 63) then pos w else negsuc (2 ^ 64 - w - 1)

module _ (floats : Floats) where
  open floats use {Float, from_int, divide, multiply}

  -- GPU
  pub record Gpu : Type 0 where
    pub index : ℕ
    pub name : Bytes
    pub uuid : Bytes
    pub utilization : Float
    pub memory_used : ℤ
    pub memory_total : ℤ
    pub memory_util : Float
    pub temperature : ℕ
    pub power_draw : Float
    pub power_limit : Float
    pub fan_speed : ℕ
    pub encoder_util : ℕ
    pub decoder_util : ℕ

  -- GPUStats
  pub record GpuStats : Type 0 where
    pub timestamp : ℕ
    pub gpus : List Gpu

  -- &GPU{Index: index}
  abbrev pub empty_gpu : ℕ → Gpu
  empty_gpu i = record {
    index = i;
    name = [];
    uuid = [];
    utilization = from_int (pos 0);
    memory_used = pos 0;
    memory_total = pos 0;
    memory_util = from_int (pos 0);
    temperature = 0;
    power_draw = from_int (pos 0);
    power_limit = from_int (pos 0);
    fan_speed = 0;
    encoder_util = 0;
    decoder_util = 0;
  }

  -- from milliwatts to watts
  abbrev pub watts : ℕ → Float
  watts n = divide (from_int (pos n)) (from_int (pos 1000))

  -- the percentage, which is left alone where the total is 0
  unfoldable pub set_memory_util : Gpu → Gpu
  set_memory_util g =
      if less_int (pos 0) g.memory_total
      then record g {
        memory_util =
            multiply (divide (from_int g.memory_used) (from_int g.memory_total))
              (from_int (pos 100));
      }
      else g

  -- the part behind GetMemoryInfo
  unfoldable pub set_memory : ℕ → ℕ → Gpu → Gpu
  unfolding set_memory_util
  set_memory used total g = set_memory_util (record g {
    memory_used = to_int64 (used / 1024 / 1024);
    memory_total = to_int64 (total / 1024 / 1024);
  })

  module _ (nvml : Nvml) where
    open nvml use {Driver, Device}

    -- One reading: its value is kept only where the return code is that of success.
    abbrev pub reading :
        {A : Type 0} → (Driver → A × ℕ × Driver) → (A → Gpu → Gpu) → Gpu × Driver → Gpu × Driver
    reading call keep (g, d) = let (a, ret, d') = call d in (if ret == 0 then keep a g else g, d')

    -- the reading of the memory, which has two values
    abbrev pub memory_reading : Device → Gpu × Driver → Gpu × Driver
    memory_reading device (g, d) =
        let (used, total, ret, d') = nvml.get_memory_info device d in
        (if ret == 0 then set_memory used total g else g, d')

    -- the readings in their order
    abbrev pub readings : Device → List (Gpu × Driver → Gpu × Driver)
    readings device =
        reading (nvml.get_name device) (λ a g. record g { name = a })
        ∷ reading (nvml.get_uuid device) (λ a g. record g { uuid = a })
        ∷ reading (nvml.get_utilization_rates device)
            (λ a g. record g { utilization = from_int (pos a) })
        ∷ memory_reading device
        ∷ reading (nvml.get_temperature device) (λ a g. record g { temperature = a })
        ∷ reading (nvml.get_power_usage device) (λ a g. record g { power_draw = watts a })
        ∷ reading (nvml.get_power_management_limit device)
            (λ a g. record g { power_limit = watts a })
        ∷ reading (nvml.get_fan_speed device) (λ a g. record g { fan_speed = a })
        ∷ reading (nvml.get_encoder_utilization device) (λ a g. record g { encoder_util = a })
        ∷ reading (nvml.get_decoder_utilization device) (λ a g. record g { decoder_util = a })
        ∷ []

    abbrev pub run_readings : List (Gpu × Driver → Gpu × Driver) → Gpu × Driver → Gpu × Driver
    run_readings [] s = s
    run_readings (r ∷ rs) s = run_readings rs (r s)

    -- queryDeviceStats, which returns no error
    unfoldable pub query_device_stats : ℕ → Device → Driver → Gpu × Driver
    unfolding set_memory
    query_device_stats index device d = run_readings (readings device) (empty_gpu index, d)
