-- ===== src/Gpu.antt =====
-- pkg/stats, the statistics of the graphics cards: NVML and the arithmetic on floats are parameters.
pub mod Nvml
pub mod Device
pub mod Handler
pub mod Utils
pub mod Mock
pub mod Stub
