-- ===== src/Gpu/Utils/Balanced.antt =====
-- The functions of pkg/stats/gpu_utils.go leave NVML as they found it.
use vllm_chill.Prelude.{ℕ, ◌+◌, ◌<◌, ◌==◌, pos, [], arith, ◌≡◌, if◌then◌else◌}
use vllm_chill.Gpu.Nvml.{Nvml}
use vllm_chill.Gpu.Utils.{
  get_gpu_count, get_gpu_compute_capability, get_gpu_info, first_capability, count_body, info_body,
  with_nvml, Reply,
}

-- NVML counts how often it was initialised: Init that succeeds counts one more, and Init that fails
-- changes nothing; Shutdown takes one back, if there is one; the other calls do not count.
pub record IsCounted (nvml : Nvml) (opened : nvml.Driver → ℕ) : Type 0 where
  pub opens :
      (d : nvml.Driver)
      → opened (nvml.init d).1 ≡ (if (nvml.init d).0 == 0 then opened d + 1 else opened d)
  pub closes : (d : nvml.Driver) → 0 < opened d → opened (nvml.shutdown d).1 + 1 ≡ opened d
  pub count_keeps : (d : nvml.Driver) → opened (nvml.device_get_count d).2 ≡ opened d
  pub handle_keeps :
      (i : ℕ) (d : nvml.Driver) → opened (nvml.device_get_handle_by_index i d).2 ≡ opened d
  pub capability_keeps :
      (v : nvml.Device) (d : nvml.Driver)
      → opened (nvml.get_cuda_compute_capability v d).3 ≡ opened d

module _ (nvml : Nvml) (opened : nvml.Driver → ℕ) (counted : IsCounted nvml opened) where
  open nvml use {Driver}
  open counted use {opens, closes, count_keeps, handle_keeps, capability_keeps}

  -- A body that keeps the count keeps it with Init before it and the deferred Shutdown behind it.
  with_nvml-opened :
      {A : Type 0} (empty : A) (body : Driver → Reply nvml A)
      → ((d : Driver) → opened (body d).2 ≡ opened d)
      → (d : Driver) → opened (with_nvml nvml empty body d).2 ≡ opened d
  with_nvml-opened empty body keeps d =
      ground (arith, opens d, keeps (nvml.init d).1, closes (body (nvml.init d).1).2)

  first_capability-opened : (d : Driver) → opened (first_capability nvml d).2 ≡ opened d
  unfolding first_capability
  first_capability-opened d =
      let (device, ret, d') = nvml.device_get_handle_by_index 0 d in
      ground (arith, handle_keeps 0 d, capability_keeps device d')

  count_body-opened : (d : Driver) → opened (count_body nvml d).2 ≡ opened d
  unfolding count_body
  count_body-opened d = ground (arith, count_keeps d)

  info_body-opened : (d : Driver) → opened (info_body nvml d).2 ≡ opened d
  unfolding info_body
  info_body-opened d =
      ground (arith, count_keeps d, first_capability-opened (nvml.device_get_count d).2)

  -- Where NVML counts how often it was initialised, GetGPUCount, GetGPUComputeCapability and
  -- GetGPUInfo leave the count as it was, whichever of their calls fail.
  pub functions_balance :
      (d : Driver)
      → (opened (get_gpu_count nvml d).2 ≡ opened d)
        × (opened (get_gpu_compute_capability nvml d).2 ≡ opened d)
        × (opened (get_gpu_info nvml d).2 ≡ opened d)
  unfolding get_gpu_count get_gpu_compute_capability get_gpu_info
  functions_balance d = (
    with_nvml-opened (pos 0) (count_body nvml) count_body-opened d,
    with_nvml-opened [] (first_capability nvml) first_capability-opened d,
    with_nvml-opened (pos 0, []) (info_body nvml) info_body-opened d,
  )
