-- ===== src/Metrics/Declared.antt =====
-- The metrics that pkg/stats/metrics.go declares. Bounds of buckets are in thousandths.
pub mod Labelled
use vllm_chill.Prelude.{ℕ, ◌<◌, Bytes, codes, Bool, List, [], ◌∷◌, ◌≡◌}

pub data Kind : Type 0 where
  counter gauge : Kind
  histogram : List ℕ → Kind

pub record Declaration : Type 0 where
  pub name : Bytes
  pub help : Bytes
  pub kind : Kind
  -- the names of the labels, none for a metric that is no vector
  pub labels : List Bytes

abbrev declare : Bytes → Bytes → Kind → List Bytes → Declaration
declare name help kind labels = record { name = name; help = help; kind = kind; labels = labels }

abbrev sizes : Kind
sizes = histogram (100000 ∷ 1000000 ∷ 10000000 ∷ 100000000 ∷ 1000000000 ∷ 10000000000 ∷ [])

abbrev of_request : List Bytes
of_request = codes "method" ∷ codes "path" ∷ []

abbrev of_reply : List Bytes
of_reply = codes "method" ∷ codes "path" ∷ codes "status" ∷ []

abbrev of_switch : List Bytes
of_switch = codes "from_model" ∷ codes "to_model" ∷ []

-- The declarations. prometheus.DefBuckets is a parameter.
abbrev pub requests_total : Declaration
requests_total =
    declare (codes "vllm_chill_requests_total") (codes "Total number of requests received") counter
      of_reply

abbrev pub request_duration : List ℕ → Declaration
request_duration def_buckets =
    declare (codes "vllm_chill_request_duration_seconds") (codes "Request duration in seconds")
      (histogram def_buckets) of_reply

abbrev pub request_payload_size : Declaration
request_payload_size =
    declare (codes "vllm_chill_request_payload_bytes") (codes "Request payload size in bytes") sizes
      of_request

abbrev pub response_payload_size : Declaration
response_payload_size =
    declare (codes "vllm_chill_response_payload_bytes") (codes "Response payload size in bytes")
      sizes of_reply

abbrev pub managed_operations : Declaration
managed_operations =
    declare (codes "vllm_chill_managed_operations_total")
      (codes "Total number of managed operations (model switches)") counter
      (codes "from_model" ∷ codes "to_model" ∷ codes "status" ∷ [])

abbrev pub managed_operation_duration : Declaration
managed_operation_duration =
    declare (codes "vllm_chill_managed_operation_duration_seconds")
      (codes "Managed operation duration in seconds")
      (histogram (10000 ∷ 30000 ∷ 60000 ∷ 120000 ∷ 300000 ∷ 600000 ∷ [])) of_switch

abbrev pub scale_ops : Declaration
scale_ops =
    declare (codes "vllm_chill_scale_operations_total") (codes "Total number of scale operations")
      counter (codes "direction" ∷ codes "status" ∷ [])

abbrev pub scale_op_duration : Declaration
scale_op_duration =
    declare (codes "vllm_chill_scale_operation_duration_seconds")
      (codes "Scale operation duration in seconds")
      (histogram (1000 ∷ 5000 ∷ 10000 ∷ 30000 ∷ 60000 ∷ 120000 ∷ [])) (codes "direction" ∷ [])

abbrev pub current_replicas : Declaration
current_replicas =
    declare (codes "vllm_chill_current_replicas") (codes "Current number of replicas") gauge []

abbrev pub idle_time_seconds : Declaration
idle_time_seconds =
    declare (codes "vllm_chill_idle_time_seconds") (codes "Time since last activity in seconds")
      gauge []

abbrev pub current_model : Declaration
current_model =
    declare (codes "vllm_chill_current_model")
      (codes "Current model loaded (1 if loaded, 0 otherwise)") gauge (codes "model_name" ∷ [])

abbrev pub xml_parsing_total : Declaration
xml_parsing_total =
    declare (codes "vllm_chill_xml_parsing_total")
      (codes "Total number of XML tool calls parsed and converted") counter (codes "status" ∷ [])

abbrev pub xml_tool_calls_detected : Declaration
xml_tool_calls_detected =
    declare (codes "vllm_chill_xml_tool_calls_detected_total")
      (codes "Total number of tool calls detected in XML format") counter []

abbrev pub proxy_latency : Declaration
proxy_latency =
    declare (codes "vllm_chill_proxy_latency_seconds")
      (codes "Latency added by the proxy before forwarding to vLLM")
      (histogram (1 ∷ 5 ∷ 10 ∷ 25 ∷ 50 ∷ 100 ∷ 250 ∷ 500 ∷ 1000 ∷ [])) (codes "operation" ∷ [])

abbrev pub vllm_startup_duration : Declaration
vllm_startup_duration =
    declare (codes "vllm_chill_vllm_startup_duration_seconds")
      (codes "Time taken for vLLM to start and become ready")
      (histogram (
        10000 ∷ 20000 ∷ 30000 ∷ 45000 ∷ 60000 ∷ 90000 ∷ 120000 ∷ 180000 ∷ 240000 ∷ 300000 ∷ 420000
        ∷ 600000 ∷ []))
      []

abbrev pub vllm_shutdown_duration : Declaration
vllm_shutdown_duration =
    declare (codes "vllm_chill_vllm_shutdown_duration_seconds")
      (codes "Time taken for vLLM to shut down completely")
      (histogram (1000 ∷ 2000 ∷ 5000 ∷ 10000 ∷ 15000 ∷ 30000 ∷ 60000 ∷ [])) []

abbrev pub vllm_state : Declaration
vllm_state =
    declare (codes "vllm_chill_vllm_state")
      (codes "Current vLLM state: 0=stopped, 1=starting, 2=running, 3=stopping") gauge []

-- all of them, in their order
abbrev pub declarations : List ℕ → List Declaration
declarations def_buckets =
    requests_total
    ∷ request_duration def_buckets
    ∷ request_payload_size
    ∷ response_payload_size
    ∷ managed_operations
    ∷ managed_operation_duration
    ∷ scale_ops
    ∷ scale_op_duration
    ∷ current_replicas
    ∷ idle_time_seconds
    ∷ current_model
    ∷ xml_parsing_total
    ∷ xml_tool_calls_detected
    ∷ proxy_latency
    ∷ vllm_startup_duration
    ∷ vllm_shutdown_duration
    ∷ vllm_state
    ∷ []
