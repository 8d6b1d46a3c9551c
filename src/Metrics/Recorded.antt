-- ===== src/Metrics/Recorded.antt =====
-- What the operations of the recorder in pkg/stats/metrics.go do to the metrics of Prometheus. A
-- histogram is the list of what it observed; times are durations.
pub mod Consistent
use vllm_chill.Prelude.{
  ℕ, zero, suc, ◌+◌, Bytes, codes, same, to_decimal, Bool, true, false, ◌&&◌, List, [], ◌∷◌, ◌++◌,
  length, ltb, if◌then◌else◌, length-append, arith, ◌≡◌, refl, ap, ◌∙◌, sym,
}
use vllm_chill.Metrics.{Recorder, record_managed_operation, set_current_model}
use vllm_chill.Metrics.Series.{
  Labels, same_labels, same_labels_iff, value_of, alter, value_of-alter,
}

abbrev pub Counter : Type 0
Counter = List (Labels × ℕ)

abbrev pub Histogram : Type 0
Histogram = List (Labels × List ℕ)

pub record Metrics : Type 0 where
  pub recorder : Recorder
  pub requests_total : Counter
  pub request_duration : Histogram
  pub request_payload_size : Histogram
  pub response_payload_size : Histogram
  pub managed_operations : Counter
  pub managed_operation_duration : Histogram
  pub scale_ops : Counter
  pub scale_op_duration : Histogram
  pub current_replicas : ℕ
  pub xml_parsing_total : Counter
  pub xml_tool_calls_detected : ℕ
  pub proxy_latency : Histogram
  pub vllm_startup_duration : List ℕ
  pub vllm_shutdown_duration : List ℕ
  pub vllm_state : ℕ

-- Inc
abbrev pub increment : Labels → Counter → Counter
increment labels c = alter 0 labels suc c

-- Observe
abbrev pub observe : Labels → ℕ → Histogram → Histogram
observe labels x h = alter [] labels (λ xs. xs ++ x ∷ []) h

abbrev pub status_text : Bool → Bytes
status_text true = codes "success"
status_text false = codes "failure"

abbrev pub observe_if : Bool → Labels → ℕ → Histogram → Histogram
observe_if true labels x h = observe labels x h
observe_if false labels x h = h

-- RecordRequest
unfoldable pub record_request : Bytes → Bytes → ℕ → ℕ → ℕ → ℕ → Metrics → Metrics
unfolding alter to_decimal
record_request method path status duration request_size response_size m =
    let labels = method ∷ path ∷ to_decimal status ∷ [] in
    record m {
      requests_total = increment labels m.requests_total;
      request_duration = observe labels duration m.request_duration;
      request_payload_size =
          observe_if (ltb 0 request_size) (method ∷ path ∷ []) request_size m.request_payload_size;
      response_payload_size =
          observe_if (ltb 0 response_size) labels response_size m.response_payload_size;
    }

-- RecordManagedOperation
unfoldable pub record_operation : Bytes → Bytes → Bool → ℕ → Metrics → Metrics
unfolding alter record_managed_operation
record_operation from_model to_model success duration m = record m {
  recorder = record_managed_operation to_model success m.recorder;
  managed_operations =
      increment (from_model ∷ to_model ∷ status_text success ∷ []) m.managed_operations;
  managed_operation_duration =
      observe_if success (from_model ∷ to_model ∷ []) duration m.managed_operation_duration;
}

-- RecordScaleOp
unfoldable pub record_scale_op : Bytes → Bool → ℕ → Metrics → Metrics
unfolding alter
record_scale_op direction success duration m = record m {
  scale_ops = increment (direction ∷ status_text success ∷ []) m.scale_ops;
  scale_op_duration = observe_if success (direction ∷ []) duration m.scale_op_duration;
}

-- RecordXMLParsing
unfoldable pub record_xml_parsing : Bool → ℕ → Metrics → Metrics
unfolding alter
record_xml_parsing success tool_call_count m = record m {
  xml_parsing_total = increment (status_text success ∷ []) m.xml_parsing_total;
  xml_tool_calls_detected =
      if success && ltb 0 tool_call_count
      then m.xml_tool_calls_detected + tool_call_count
      else m.xml_tool_calls_detected;
}

-- A call of the recorder: RecordRequest, RecordManagedOperation, RecordScaleOp, RecordXMLParsing,
-- SetCurrentModel, UpdateReplicas, RecordProxyLatency, RecordVLLMStartup, RecordVLLMShutdown and
-- SetVLLMState.
pub data Call : Type 0 where
  request : Bytes → Bytes → ℕ → ℕ → ℕ → ℕ → Call
  operation : Bytes → Bytes → Bool → ℕ → Call
  scale_op : Bytes → Bool → ℕ → Call
  xml_parsing : Bool → ℕ → Call
  current_model : Bytes → Call
  replicas : ℕ → Call
  latency : Bytes → ℕ → Call
  startup : ℕ → Call
  shutdown : ℕ → Call
  state : ℕ → Call

unfoldable pub perform : Call → Metrics → Metrics
unfolding record_request record_operation record_scale_op record_xml_parsing alter
perform (request method path status duration req resp) m =
    record_request method path status duration req resp m
perform (operation from_model to_model success duration) m =
    record_operation from_model to_model success duration m
perform (scale_op direction success duration) m = record_scale_op direction success duration m
perform (xml_parsing success n) m = record_xml_parsing success n m
perform (current_model name) m = record m { recorder = set_current_model name m.recorder }
perform (replicas n) m = record m { current_replicas = n }
perform (latency op duration) m = record m {
  proxy_latency = observe (op ∷ []) duration m.proxy_latency;
}
perform (startup duration) m = record m {
  vllm_startup_duration = m.vllm_startup_duration ++ duration ∷ [];
}
perform (shutdown duration) m = record m {
  vllm_shutdown_duration = m.vllm_shutdown_duration ++ duration ∷ [];
}
perform (state n) m = record m { vllm_state = n }
