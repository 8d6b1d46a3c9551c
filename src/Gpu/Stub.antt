-- ===== src/Gpu/Stub.antt =====
-- The handlers of pkg/stats/gpu_stats_stub.go, for a build without cgo: no request is looked at.
use vllm_chill.Prelude.{Bytes, codes, ◌++◌, [], ◌∷◌}
use vllm_chill.Gpu.Nvml.{Floats}
use vllm_chill.Gpu.Handler.{Response, text, error_object}

abbrev not_available : Bytes
not_available = codes "GPU stats not available (compiled without CGO/NVML support)"

module _ (floats : Floats) where
  -- ServeHTTP
  unfoldable pub stub_serve_http : Response floats
  stub_serve_http = record {
    status = 503;
    headers = (codes "Content-Type", codes "application/json") ∷ [];
    body = text (codes "{\"error\":\"" ++ (not_available ++ codes "\"}"));
  }

  -- Handle of the gin handler, which Handler calls
  unfoldable pub stub_handle : Response floats
  stub_handle = record { status = 503; headers = []; body = error_object not_available }
