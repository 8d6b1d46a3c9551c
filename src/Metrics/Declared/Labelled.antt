-- ===== src/Metrics/Declared/Labelled.antt =====
-- The recorder's calls fit the declarations: WithLabelValues panics where a metric is given another
-- number of label values than it was declared with, and registering panics where a name is taken or
-- the bounds of the buckets do not rise.
use vllm_chill.Prelude.{
  ℕ, Assoc, same, length, All, any, all, Bool, true, not, ◌&&◌, ltb, List, [], ◌∷◌, ◌≡◌, refl,
}
use vllm_chill.Metrics.Series.{Labels}
use vllm_chill.Metrics.Recorded.{Metrics, current_model}
use vllm_chill.Metrics.Declared.{
  Declaration, Kind, histogram, declarations, requests_total, request_duration,
  request_payload_size, response_payload_size, managed_operations, managed_operation_duration,
  scale_ops, scale_op_duration, xml_parsing_total, proxy_latency, current_model as model_gauge,
}

-- Every list of label values that was used is as long as the declared list of labels.
abbrev pub Fits {ℓ} : {A : Type ℓ} → Declaration → List (Labels × A) → Type 0
Fits d v = All (λ p. length p.0 ≡ length d.labels) v

-- The same of the vector of the current model, whose only label value is the key.
abbrev pub FitsNames : Assoc ℕ → Type 0
FitsNames v = All (λ p. length (p.0 ∷ []) ≡ length model_gauge.labels) v

module _ (def_buckets : List ℕ) where
  -- The vectors that the recorder has used fit their declarations.
  pub record IsLabelled (m : Metrics) : Type 0 where
    pub requests : Fits requests_total m.requests_total
    pub durations : Fits (request_duration def_buckets) m.request_duration
    pub request_sizes : Fits request_payload_size m.request_payload_size
    pub response_sizes : Fits response_payload_size m.response_payload_size
    pub operations : Fits managed_operations m.managed_operations
    pub operation_durations : Fits managed_operation_duration m.managed_operation_duration
    pub scales : Fits scale_ops m.scale_ops
    pub scale_durations : Fits scale_op_duration m.scale_op_duration
    pub parsings : Fits xml_parsing_total m.xml_parsing_total
    pub latencies : Fits proxy_latency m.proxy_latency
    pub models : FitsNames m.recorder.current_model

-- Names that no later declaration has.
abbrev distinct : List Declaration → Bool
distinct [] = true
distinct (d ∷ ds) = not (any (λ e. same e.name d.name) ds) && distinct ds

abbrev rises : List ℕ → Bool
rises [] = true
rises (x ∷ []) = true
rises (x ∷ y ∷ xs) = ltb x y && rises (y ∷ xs)

abbrev rising_kind : Kind → Bool
rising_kind (histogram buckets) = rises buckets
rising_kind _ = true

-- The declarations can all be registered, if the default buckets rise.
declarations_can_be_registered :
    (def_buckets : List ℕ)
    → rises def_buckets ≡ true
    → (distinct (declarations def_buckets) ≡ true)
      × (all (λ d. rising_kind d.kind) (declarations def_buckets) ≡ true)
unfolding same
declarations_can_be_registered def_buckets h = (refl, rw h)
