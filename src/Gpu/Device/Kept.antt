-- ===== src/Gpu/Device/Kept.antt =====
-- What holds of the statistics of a device whichever readings fail.
use vllm_chill.Prelude.{ℕ, ◌==◌, Bool-cases, All, List, [], ◌∷◌, inl, inr}
use vllm_chill.Gpu.Nvml.{Nvml, Floats}
use vllm_chill.Gpu.Device.{
  Gpu, set_memory, reading, memory_reading, readings, run_readings, query_device_stats, empty_gpu,
}

module _ (floats : Floats) (nvml : Nvml) (P : Gpu floats → Type 0) where
  open nvml use {Driver, Device}

  abbrev pub Keeps : (Gpu floats × Driver → Gpu floats × Driver) → Type 0
  Keeps r = (s : Gpu floats × Driver) → P s.0 → P (r s).0

  pub reading-Keeps :
      {A : Type 0} (call : Driver → A × ℕ × Driver) (keep : A → Gpu floats → Gpu floats)
      → ((a : A) (g : Gpu floats) → P g → P (keep a g))
      → Keeps (reading floats nvml call keep)
  reading-Keeps call keep keeps (g, d) h = elim (Bool-cases ((call d).1 == 0)) [
    | inl success ↦ rw success (keeps (call d).0 g h)
    | inr failure ↦ rw failure h
  ]

  pub memory_reading-Keeps :
      (v : Device)
      → ((d : Driver) (g : Gpu floats)
          → P g
          → P (set_memory floats (nvml.get_memory_info v d).0 (nvml.get_memory_info v d).1 g))
      → Keeps (memory_reading floats nvml v)
  memory_reading-Keeps v keeps (g, d) h = elim (Bool-cases ((nvml.get_memory_info v d).2 == 0)) [
    | inl success ↦ rw success (keeps d g h)
    | inr failure ↦ rw failure h
  ]

  run_readings-Keeps :
      (rs : List (Gpu floats × Driver → Gpu floats × Driver))
      → All Keeps rs
      → Keeps (run_readings floats nvml rs)
  run_readings-Keeps [] _ s h = h
  run_readings-Keeps (r ∷ rs) (keeps, others) s h = run_readings-Keeps rs others (r s) (keeps s h)

  -- What holds before the first reading and is kept by each of them holds of the result.
  pub query_device_stats-kept :
      (i : ℕ) (v : Device) (d : Driver)
      → All Keeps (readings floats nvml v)
      → P (empty_gpu floats i)
      → P (query_device_stats floats nvml i v d).0
  unfolding query_device_stats
  query_device_stats-kept i v d kept h =
      run_readings-Keeps (readings floats nvml v) kept (empty_gpu floats i, d) h
