-- ===== src/Gpu/Device/Memory.antt =====
-- The memory that queryDeviceStats shows.
use vllm_chill.Prelude.{
  ℕ, ◌/◌, ◌^◌, ◌≤◌, ◌<◌, ltb, ltb→lt, Bool-cases, ℤ, pos, arith, ◌≡◌, refl, subst, inl, inr,
}
use vllm_chill.Gpu.Nvml.{Nvml, Floats}
use vllm_chill.Gpu.Device.Kept.{reading-Keeps, memory_reading-Keeps, query_device_stats-kept}
use vllm_chill.Gpu.Device.{
  Gpu, to_int64, set_memory, set_memory_util, query_device_stats, empty_gpu, watts,
}

-- What IEEE 754 promises of the arithmetic on numbers that are not negative: conversion and division
-- keep the order, a number divided by itself is 1, and 1 changes no product.
pub record IsRounded (floats : Floats) : Type 1 where
  pub Le : floats.Float → floats.Float → Type 0
  pub converts : (m n : ℕ) → m ≤ n → Le (floats.from_int (pos m)) (floats.from_int (pos n))
  pub divide_mono :
      (x y : floats.Float) (n : ℕ)
      → 0 < n
      → Le x y
      → Le (floats.divide x (floats.from_int (pos n))) (floats.divide y (floats.from_int (pos n)))
  pub divide_self :
      (n : ℕ)
      → 0 < n
      → floats.divide (floats.from_int (pos n)) (floats.from_int (pos n)) ≡ floats.from_int (pos 1)
  pub multiply_mono :
      (x y : floats.Float) (n : ℕ)
      → Le x y
      → Le
          (floats.multiply x (floats.from_int (pos n)))
          (floats.multiply y (floats.from_int (pos n)))
  pub one_multiply : (x : floats.Float) → floats.multiply (floats.from_int (pos 1)) x ≡ x

-- The conversion to int64 does not wrap, since the number of mebibytes is below 2^44.
to_int64-mebibytes : (n : ℕ) → n < 2 ^ 64 → to_int64 (n / 1024 / 1024) ≡ pos (n / 1048576)
to_int64-mebibytes n h = ground arith

module _ (floats : Floats) (rounded : IsRounded floats) where
  open floats use {Float, from_int}
  open rounded use {Le, converts, divide_mono, divide_self, multiply_mono, one_multiply}

  -- Both sizes are numbers of mebibytes below 2^44, no more is used than there is, and the percentage
  -- is at most 100.
  pub record Bounded (memory_used memory_total : ℤ) (memory_util : Float) : Type 0 where
    pub used : ℕ
    pub total : ℕ
    pub used_is : memory_used ≡ pos used
    pub total_is : memory_total ≡ pos total
    pub within : used ≤ total
    pub below : total < 2 ^ 44
    pub percentage : Le memory_util (from_int (pos 100))

  abbrev pub IsBounded : Gpu floats → Type 0
  IsBounded g = Bounded g.memory_used g.memory_total g.memory_util

  percentage_bounds :
      (m n : ℕ)
      → m ≤ n
      → 0 < n
      → Le
          (floats.multiply
            (floats.divide (from_int (pos m)) (from_int (pos n)))
            (from_int (pos 100)))
          (from_int (pos 100))
  percentage_bounds m n h positive =
      let part = floats.divide (from_int (pos m)) (from_int (pos n)) in
      let one = from_int (pos 1) in
      let least : Le part one =
        subst (λ x. Le part x) (divide_self n positive)
          (divide_mono (from_int (pos m)) (from_int (pos n)) n positive (converts m n h)) in
      subst (λ x. Le (floats.multiply part (from_int (pos 100))) x)
        (one_multiply (from_int (pos 100))) (multiply_mono part one 100 least)

  set_memory_util-IsBounded :
      (m n : ℕ) (g : Gpu floats)
      → g.memory_used ≡ pos m
      → g.memory_total ≡ pos n
      → m ≤ n
      → n < 2 ^ 44
      → Le g.memory_util (from_int (pos 100))
      → IsBounded (set_memory_util floats g)
  unfolding set_memory_util
  set_memory_util-IsBounded m n g used total h below old = elim (Bool-cases (ltb 0 n)) [
    | inl positive ↦ record {
      used = m;
      total = n;
      used_is = ground (arith, positive);
      total_is = ground (arith, positive);
      within = h;
      below = below;
      percentage = rw (used, total, positive) (percentage_bounds m n h (ltb→lt 0 n positive));
    }
    | inr zero_total ↦ record {
      used = m;
      total = n;
      used_is = ground (arith, zero_total);
      total_is = ground (arith, zero_total);
      within = h;
      below = below;
      percentage = rw (total, zero_total) old;
    }
  ]

  set_memory-IsBounded :
      (used total : ℕ) (g : Gpu floats)
      → used ≤ total
      → total < 2 ^ 64
      → Le g.memory_util (from_int (pos 100))
      → IsBounded (set_memory floats used total g)
  unfolding set_memory
  set_memory-IsBounded used total g h below old =
      set_memory_util-IsBounded (used / 1048576) (total / 1048576) _
        (to_int64-mebibytes used (omega arith)) (to_int64-mebibytes total below) (omega arith)
        (omega arith) old

  empty_gpu-IsBounded : (i : ℕ) → IsBounded (empty_gpu floats i)
  empty_gpu-IsBounded i = record {
    used = 0;
    total = 0;
    used_is = refl;
    total_is = refl;
    within = omega arith;
    below = omega arith;
    percentage = converts 0 100 (omega arith);
  }

  module _ (nvml : Nvml) where
    open nvml use {Driver, Device}

    -- Where NVML never reports more memory used than there is, in 64 bits, and the arithmetic is that
    -- of IEEE 754: whichever calls fail, the sizes that are shown for a device do not wrap, no more
    -- memory is used than there is, and the percentage is at most 100.
    pub query_device_stats-IsBounded :
        ((v : Device) (d : Driver)
          → ((nvml.get_memory_info v d).0 ≤ (nvml.get_memory_info v d).1)
            × ((nvml.get_memory_info v d).1 < 2 ^ 64))
        → (i : ℕ) (v : Device) (d : Driver) → IsBounded (query_device_stats floats nvml i v d).0
    query_device_stats-IsBounded fits i v d =
        query_device_stats-kept floats nvml IsBounded i v d
          (
            reading-Keeps floats nvml IsBounded (nvml.get_name v) (λ a g. record g { name = a })
                (λ a g h. h),
            (
              reading-Keeps floats nvml IsBounded (nvml.get_uuid v) (λ a g. record g { uuid = a })
                  (λ a g h. h),
              (
                reading-Keeps floats nvml IsBounded (nvml.get_utilization_rates v)
                    (λ a g. record g { utilization = from_int (pos a) }) (λ a g h. h),
                (
                  memory_reading-Keeps floats nvml IsBounded v (λ d g h.
                      set_memory-IsBounded (nvml.get_memory_info v d).0 (nvml.get_memory_info v d).1
                        g (fits v d).0 (fits v d).1 h.percentage),
                  (
                    reading-Keeps floats nvml IsBounded (nvml.get_temperature v)
                        (λ a g. record g { temperature = a }) (λ a g h. h),
                    (
                      reading-Keeps floats nvml IsBounded (nvml.get_power_usage v)
                          (λ a g. record g { power_draw = watts floats a }) (λ a g h. h),
                      (
                        reading-Keeps floats nvml IsBounded (nvml.get_power_management_limit v)
                            (λ a g. record g { power_limit = watts floats a }) (λ a g h. h),
                        (
                          reading-Keeps floats nvml IsBounded (nvml.get_fan_speed v)
                              (λ a g. record g { fan_speed = a }) (λ a g h. h),
                          (
                            reading-Keeps floats nvml IsBounded (nvml.get_encoder_utilization v)
                                (λ a g. record g { encoder_util = a }) (λ a g h. h),
                            (
                              reading-Keeps floats nvml IsBounded (nvml.get_decoder_utilization v)
                                  (λ a g. record g { decoder_util = a }) (λ a g h. h),
                              tt,
                            ),
                          ),
                        ),
                      ),
                    ),
                  ),
                ),
              ),
            ),
          )
          (empty_gpu-IsBounded i)
