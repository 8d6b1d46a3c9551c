-- ===== src/Gpu/Mock/Listed.antt =====
-- What the handler over the mock lists, and the memory that the mock reports.
use vllm_chill.Prelude.{
  ℕ, pos, zero, suc, ◌+◌, ◌^◌, ◌<◌, ◌≤◌, true, false, none, some, List, [], ◌∷◌, ◌++◌, length,
  length-append, append_assoc, arith, ◌≡◌, refl, ap, subst, sym, ◌∙◌, ok, err,
}
use vllm_chill.Gpu.Nvml.{Floats}
use vllm_chill.Gpu.Device.{Gpu}
use vllm_chill.Gpu.Mock.{
  MockDevice, Mock, nth_device, nvml_init, nvml_shutdown, nvml_device_get_count,
  nvml_device_get_handle_by_index, nvml_device_get_memory_info, mock_gpu, mock_gpus, get_stats,
  new_mock_handler, not_initialized, count_or_zero,
}

nth_device-append :
    (before : List MockDevice) (v : MockDevice) (vs : List MockDevice)
    → nth_device (length before) (before ++ v ∷ vs) ≡ some v
nth_device-append [] v vs = refl
nth_device-append (w ∷ before) v vs = nth_device-append before v vs

handle-device :
    (before : List MockDevice) (v : MockDevice) (vs : List MockDevice) (m : Mock)
    → m.nvml_initialized ≡ true
    → m.mock_devices ≡ before ++ v ∷ vs
    → nvml_device_get_handle_by_index (pos (length before)) m ≡ ok v
unfolding nvml_device_get_handle_by_index
handle-device before v vs m on e = simp (on, e, nth_device-append before v vs) refl

handle-off :
    (i : ℕ) (m : Mock)
    → m.nvml_initialized ≡ false
    → nvml_device_get_handle_by_index (pos i) m ≡ err not_initialized
unfolding nvml_device_get_handle_by_index
handle-off i m off = simp (off) refl

nvml_init-counted :
    (m : Mock)
    → ((nvml_init m).nvml_initialized ≡ true)
      × (count_or_zero (nvml_device_get_count (nvml_init m)) ≡ length (nvml_init m).mock_devices)
unfolding nvml_init nvml_device_get_count
nvml_init-counted m = ground arith

shutdown-off :
    (m : Mock)
    → m.nvml_initialized ≡ true
    → ((nvml_shutdown m).0 ≡ none) × ((nvml_shutdown m).1.nvml_initialized ≡ false)
unfolding nvml_shutdown
shutdown-off m on = ground arith

module _ (floats : Floats) (to_uint32 : floats.Float → ℕ) where
  -- the statistics of devices, numbered from an index
  abbrev pub numbered : ℕ → List MockDevice → List (Gpu floats)
  numbered i [] = []
  numbered i (v ∷ vs) = mock_gpu floats to_uint32 i v ∷ numbered (suc i) vs

  mock_gpus-numbered :
      (before vs : List MockDevice) (m : Mock)
      → m.nvml_initialized ≡ true
      → m.mock_devices ≡ before ++ vs
      → mock_gpus floats to_uint32 (length vs) (length before) m ≡ numbered (length before) vs
  unfolding mock_gpus
  mock_gpus-numbered before [] m on e = refl
  mock_gpus-numbered before (v ∷ vs) m on e =
      let rest =
        mock_gpus-numbered (before ++ v ∷ []) vs m on (e ∙ sym (append_assoc before (v ∷ []) vs)) in
      let next : length (before ++ v ∷ []) ≡ suc (length before) =
        length-append before (v ∷ []) ∙ omega arith in
      rw (mock_gpus, handle-device before v vs m on e)
        (ap (λ gs. mock_gpu floats to_uint32 (length before) v ∷ gs)
          (subst (λ i. mock_gpus floats to_uint32 (length vs) i m ≡ numbered i vs) next rest))

  mock_gpus-off :
      (n i : ℕ) (m : Mock) → m.nvml_initialized ≡ false → mock_gpus floats to_uint32 n i m ≡ []
  unfolding mock_gpus
  mock_gpus-off zero i m off = refl
  mock_gpus-off (suc n) i m off = rw (mock_gpus, handle-off i m off) (mock_gpus-off n (suc i) m off)

  -- A new handler over the mock lists every device of the mock with its index, in their order, and
  -- after a shutdown, none.
  pub new_mock_handler-lists :
      (now later : ℕ) (m : Mock)
      → let (count, started) = new_mock_handler m in
        ((get_stats floats to_uint32 now count started).gpus ≡ numbered 0 started.mock_devices)
        × ((nvml_shutdown started).0 ≡ none)
        × ((get_stats floats to_uint32 later count (nvml_shutdown started).1).gpus ≡ [])
  unfolding new_mock_handler get_stats
  new_mock_handler-lists now later m =
      let (on, counted) = nvml_init-counted m in
      let (stopped, off) = shutdown-off (nvml_init m) on in
      (
        ap (λ n. mock_gpus floats to_uint32 n 0 (nvml_init m)) counted
            ∙ mock_gpus-numbered [] (nvml_init m).mock_devices (nvml_init m) on refl,
        stopped,
        mock_gpus-off _ 0 (nvml_shutdown (nvml_init m)).1 off,
      )

-- The used and the free memory that the mock reports add up to the total.
pub get_memory_info-adds :
    (v : MockDevice)
    → v.memory_used ≤ v.memory_total
    → v.memory_total < 2 ^ 64
    → let (used, free, total) = nvml_device_get_memory_info v in used + free ≡ total
unfolding nvml_device_get_memory_info
get_memory_info-adds v h k = omega arith
