-- ===== src/Gpu/Handler/Listed.antt =====
-- Which devices queryGPUStats lists.
use vllm_chill.Prelude.{
  ℕ, zero, suc, ◌+◌, ◌<◌, ◌≤◌, ◌==◌, Bool-cases, if◌then◌else◌, true, List, [], ◌∷◌, inl, inr,
  arith, ◌≡◌, ◌≢◌, refl, subst, ℤ, pos, negsuc, ok,
}
use vllm_chill.Gpu.Nvml.{Nvml, Floats}
use vllm_chill.Gpu.Device.Kept.{reading-Keeps, memory_reading-Keeps, query_device_stats-kept}
use vllm_chill.Gpu.Device.{
  Gpu, GpuStats, set_memory, set_memory_util, reading, watts, query_device_stats,
}
use vllm_chill.Gpu.Handler.{Handler, result_of, query_devices, query_counted, query_gpu_stats}

module _ (floats : Floats) (nvml : Nvml) where
  open nvml use {Driver, Device}

  set_memory-index :
      (used total i : ℕ) (g : Gpu floats) → g.index ≡ i → (set_memory floats used total g).index ≡ i
  unfolding set_memory set_memory_util
  set_memory-index used total i g h = ground arith

  query_device_stats-index :
      (i : ℕ) (v : Device) (d : Driver) → (query_device_stats floats nvml i v d).0.index ≡ i
  query_device_stats-index i v d =
      query_device_stats-kept floats nvml (λ g. g.index ≡ i) i v d
        (
          keeps_index (nvml.get_name v) (λ a g. record g { name = a }) (λ a g h. h),
          (
            keeps_index (nvml.get_uuid v) (λ a g. record g { uuid = a }) (λ a g h. h),
            (
              keeps_index (nvml.get_utilization_rates v)
                  (λ a g. record g { utilization = floats.from_int (pos a) }) (λ a g h. h),
              (
                memory_reading-Keeps floats nvml (λ g. g.index ≡ i) v
                    (λ d g h.
                      set_memory-index (nvml.get_memory_info v d).0 (nvml.get_memory_info v d).1 i g
                        h),
                (
                  keeps_index (nvml.get_temperature v) (λ a g. record g { temperature = a })
                      (λ a g h. h),
                  (
                    keeps_index (nvml.get_power_usage v)
                        (λ a g. record g { power_draw = watts floats a }) (λ a g h. h),
                    (
                      keeps_index (nvml.get_power_management_limit v)
                          (λ a g. record g { power_limit = watts floats a }) (λ a g h. h),
                      (
                        keeps_index (nvml.get_fan_speed v) (λ a g. record g { fan_speed = a })
                            (λ a g h. h),
                        (
                          keeps_index (nvml.get_encoder_utilization v)
                              (λ a g. record g { encoder_util = a }) (λ a g h. h),
                          (
                            keeps_index (nvml.get_decoder_utilization v)
                                (λ a g. record g { decoder_util = a }) (λ a g h. h),
                            tt,
                          ),
                        ),
                      ),
                    ),
                  ),
                ),
              ),
            ),
          ),
        )
        refl
    where
      keeps_index :
          {A : Type 0} (call : Driver → A × ℕ × Driver) (keep : A → Gpu floats → Gpu floats)
          → ((a : A) (g : Gpu floats) → g.index ≡ i → (keep a g).index ≡ i)
          → (s : Gpu floats × Driver) → s.0.index ≡ i
          → (reading floats nvml call keep s).0.index ≡ i
      keeps_index call keep = reading-Keeps floats nvml (λ g. g.index ≡ i) call keep

  -- The indices rise, from a first one on, and stay below a bound.
  abbrev pub Ascends : ℕ → ℕ → List (Gpu floats) → Type 0
  Ascends low high [] = Unit {0}
  Ascends low high (g ∷ gs) = (low ≤ g.index) × (g.index < high) × Ascends (suc g.index) high gs

  Ascends-from :
      (low low' high : ℕ) (gs : List (Gpu floats))
      → low' ≤ low
      → Ascends low high gs
      → Ascends low' high gs
  Ascends-from low low' high [] h _ = tt
  Ascends-from low low' high (g ∷ gs) h (a, b, c) = (omega arith, b, c)

  -- the list that queryGPUStats goes on with, with the device or without it
  Ascends-if :
      (ret i n : ℕ) (g : Gpu floats) (rest : List (Gpu floats))
      → g.index ≡ i
      → Ascends (suc i) (suc i + n) rest
      → Ascends i (i + suc n) (if ret == 0 then g ∷ rest else rest)
  Ascends-if ret i n g rest at_i h =
      let same_bound : i + suc n ≡ suc i + n = omega arith in
      elim (Bool-cases (ret == 0)) [
        | inl success ↦
            rw success (omega (arith, at_i), omega (arith, at_i), rw (at_i, same_bound) h)
        | inr failure ↦
            rw (failure, same_bound) (Ascends-from (suc i) i (suc i + n) rest (omega arith) h)
      ]

  query_devices-Ascends :
      (left i : ℕ) (d : Driver) → Ascends i (i + left) (query_devices floats nvml left i d).0
  unfolding query_devices
  query_devices-Ascends zero i d = tt
  query_devices-Ascends (suc left) i d =
      let (device, ret, d') = nvml.device_get_handle_by_index i d in
      let (gpu, d'') = query_device_stats floats nvml i device d' in
      Ascends-if ret i left gpu _ (query_device_stats-index i device d')
        (query_devices-Ascends left (suc i) (if ret == 0 then d'' else d'))

  result_of-ok :
      (timestamp : ℕ) (gs : List (Gpu floats)) (st : GpuStats floats)
      → result_of floats nvml timestamp gs ≡ ok st
      → (st.gpus ≡ gs) × (gs ≢ [])
  result_of-ok timestamp [] st e = cc
  result_of-ok timestamp (g ∷ gs) st e = (ground arith, λ empty. cc)

  query_counted-lists :
      (count : ℤ) (d : Driver) (st : GpuStats floats)
      → (query_counted floats nvml count d).0 ≡ ok st
      → (n : ℕ) × (count ≡ pos n) × (st.gpus ≢ []) × Ascends 0 n st.gpus
  unfolding query_counted
  query_counted-lists (pos zero) d st e = cc
  query_counted-lists (pos (suc n)) d st e =
      let all : List (Gpu floats) = (query_devices floats nvml (suc n) 0 d).0 in
      let (same_gpus, some_gpu) = result_of-ok (nvml.now d) all st e in
      let bound : 0 + suc n ≡ suc n = omega arith in
      (
        suc n,
        refl,
        rw same_gpus some_gpu,
        rw same_gpus (subst (λ m. Ascends 0 m all) bound (query_devices-Ascends (suc n) 0 d)),
      )
  query_counted-lists (negsuc n) d st e = cc

  -- Statistics that queryGPUStats returns are of an NVML that was initialised and counts its devices;
  -- there is at least one device in them, and their indices rise and are below the count.
  pub query_gpu_stats-lists :
      (h : Handler floats nvml) (st : GpuStats floats)
      → (query_gpu_stats floats nvml h).0 ≡ ok st
      → (h.nvml_initialized ≡ true)
        × ((n : ℕ) × ((nvml.device_get_count h.driver).0 ≡ pos n)
            × (st.gpus ≢ [])
            × Ascends 0 n st.gpus)
  unfolding query_gpu_stats
  query_gpu_stats-lists h st e = elim (Bool-cases h.nvml_initialized) [
    | inl ready ↦ (
      ready,
      elim (Bool-cases ((nvml.device_get_count h.driver).1 == 0)) [
        | inl success ↦
            query_counted-lists (nvml.device_get_count h.driver).0
              (nvml.device_get_count h.driver).2 st (ground (arith, ready, success, e))
        | inr failure ↦ absurd (ground (arith, ready, failure, e))
      ],
    )
    | inr unready ↦ absurd (ground (arith, unready, e))
  ]
