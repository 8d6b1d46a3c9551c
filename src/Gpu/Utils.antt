-- ===== src/Gpu/Utils.antt =====
-- pkg/stats/gpu_utils.go: the number of the cards and their compute capability. What is logged is
-- left out.
pub mod Balanced
use vllm_chill.Prelude.{
  ℕ, Bytes, codes, ◌==◌, ◌++◌, ◌∷◌, [], ℤ, pos, is_zero, format_int, Option, none, some, Error,
  errorf, Result, ok, err, if◌then◌else◌,
}
use vllm_chill.Gpu.Nvml.{Nvml}

module _ (nvml : Nvml) where
  open nvml use {Driver}

  abbrev failure : Bytes → ℕ → Error
  failure what ret = errorf (what ++ nvml.error_string ret)

  -- The values that a function returns beside its error are returned with it.
  abbrev pub Reply : Type 0 → Type 0
  Reply A = A × Option Error × Driver

  -- nvml.Init, the rest of a function, and the deferred nvml.Shutdown, whose code is dropped
  abbrev pub with_nvml : {A : Type 0} → A → (Driver → Reply A) → Driver → Reply A
  with_nvml empty body d =
      let (ret, d') = nvml.init d in
      let (a, e, d'') = body d' in
      if ret == 0
      then (a, e, (nvml.shutdown d'').1)
      else (empty, some (failure (codes "NVML Init failed: ") ret), d')

  -- GetGPUCount behind nvml.Init
  unfoldable pub count_body : Driver → Reply ℤ
  count_body d =
      let (count, ret, d') = nvml.device_get_count d in
      if ret == 0
      then (count, none, d')
      else (pos 0, some (failure (codes "failed to get device count: ") ret), d')

  -- GetGPUCount
  unfoldable pub get_gpu_count : Driver → Reply ℤ
  unfolding count_body
  get_gpu_count = with_nvml (pos 0) count_body

  -- fmt.Sprintf("%d.%d", major, minor)
  unfoldable pub capability_text : ℤ → ℤ → Bytes
  unfolding format_int
  capability_text major minor = format_int major ++ codes "." ++ format_int minor

  -- GetDeviceHandleByIndex(0) and GetCudaComputeCapability, in both functions
  unfoldable pub first_capability : Driver → Reply Bytes
  unfolding capability_text
  first_capability d =
      let (device, ret, d') = nvml.device_get_handle_by_index 0 d in
      let (major, minor, ret', d'') = nvml.get_cuda_compute_capability device d' in
      if ret == 0
      then if ret' == 0
        then (capability_text major minor, none, d'')
        else ([], some (failure (codes "failed to get compute capability: ") ret'), d'')
      else ([], some (failure (codes "failed to get device 0: ") ret), d')

  -- GetGPUComputeCapability
  unfoldable pub get_gpu_compute_capability : Driver → Reply Bytes
  unfolding first_capability
  get_gpu_compute_capability = with_nvml [] first_capability

  abbrev pub with_count : ℤ → Reply Bytes → Reply (ℤ × Bytes)
  with_count count (capability, e, d) = ((count, capability), e, d)

  -- GetGPUInfo behind nvml.Init
  unfoldable pub info_body : Driver → Reply (ℤ × Bytes)
  unfolding first_capability
  info_body d =
      let (count, ret, d') = nvml.device_get_count d in
      if ret == 0
      then if is_zero count
        then ((pos 0, []), some (errorf (codes "no GPUs found")), d')
        else with_count count (first_capability d')
      else ((pos 0, []), some (failure (codes "failed to get device count: ") ret), d')

  -- GetGPUInfo
  unfoldable pub get_gpu_info : Driver → Reply (ℤ × Bytes)
  unfolding info_body
  get_gpu_info = with_nvml (pos 0, []) info_body
