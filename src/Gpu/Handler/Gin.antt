-- ===== src/Gpu/Handler/Gin.antt =====
-- The two handlers of the statistics, of net/http and of gin.
use vllm_chill.Prelude.{
  ℕ, [], Bytes, codes, same, lookup, Option, none, some, Option-cases, inl, inr, Result, ok, err,
  panic, ◌≡◌, refl,
}
use vllm_chill.Gpu.Nvml.{Nvml, Floats}
use vllm_chill.Gpu.Device.{GpuStats}
use vllm_chill.Gpu.Handler.{
  Handler, Response, Body, encoded, text, error_object, fresh, query_gpu_stats, answer, serve_http,
  gin_handler, gin_answer, cache_header,
}
use vllm_chill.Gpu.Handler.Cached.{hit, serve_http-stale, serve_http-cached}

module _ (floats : Floats) (nvml : Nvml) where
  -- the statistics of a reply, or the text of its error
  abbrev pub content : Body floats → Option (GpuStats floats) × Bytes
  content (text s) = (none, s)
  content (encoded st) = (some st, [])
  content (error_object s) = (none, s)

  -- A reply without the form of its error and its content type.
  abbrev pub substance :
      Option (Response floats) → Option (ℕ × Option Bytes × (Option (GpuStats floats) × Bytes))
  substance none = none
  substance (some r) = some (r.status, lookup (codes "X-Cache") r.headers, content r.body)

  answers_agree :
      (r : Result (GpuStats floats)) (h : Handler floats nvml)
      → (substance (gin_answer floats nvml (r, h)).0 ≡ substance (answer floats nvml (r, h)).0)
        × ((gin_answer floats nvml (r, h)).1 ≡ (answer floats nvml (r, h)).1)
  unfolding gin_answer answer lookup same
  answers_agree (ok st) h = (refl, refl)
  answers_agree (err e) h = (refl, refl)
  answers_agree panic h = (refl, refl)

  abbrev gin_hit : GpuStats floats → Response floats
  gin_hit st = record { status = 200; headers = cache_header (codes "HIT"); body = encoded st }

  hits_agree :
      (st : GpuStats floats) → substance (some (gin_hit st)) ≡ substance (some (hit floats nvml st))
  unfolding lookup same
  hits_agree st = refl

  gin_handler-stale :
      (h : Handler floats nvml)
      → fresh floats nvml h ≡ none
      → gin_handler floats nvml h ≡ gin_answer floats nvml (query_gpu_stats floats nvml h)
  unfolding gin_handler
  gin_handler-stale h e = rw (e, gin_handler) refl

  gin_handler-cached :
      (h : Handler floats nvml) (st : GpuStats floats)
      → fresh floats nvml h ≡ some st
      → gin_handler floats nvml h ≡ (some (gin_hit st), h)
  unfolding gin_handler
  gin_handler-cached h st e = rw (e, gin_handler) refl

  -- The handler for gin agrees with the one for net/http on GET, the only method that its route has:
  -- they leave the same cache and driver, and reply with the same status, the same X-Cache header, and
  -- the same statistics or text of the error; only its form and the content type differ.
  pub gin_handler-serve_http :
      (h : Handler floats nvml)
      → let g = gin_handler floats nvml h in
        let s = serve_http floats nvml (codes "GET") h in
        (substance g.0 ≡ substance s.0) × (g.1 ≡ s.1)
  gin_handler-serve_http h = elim (Option-cases (fresh floats nvml h)) [
    | inl stale ↦
        let (r, h') = query_gpu_stats floats nvml h in
        rw (serve_http-stale floats nvml h stale, gin_handler-stale h stale) (answers_agree r h')
    | inr (st, cached) ↦
        rw (serve_http-cached floats nvml h st cached, gin_handler-cached h st cached)
          (hits_agree st, refl)
  ]
