-- ===== src/Examples/Recording.antt =====
-- The theorems on the recorder.
use vllm_chill.Prelude.{ℕ, codes, true, false, [], ◌∷◌, List, refl}
use vllm_chill.Metrics.Series.{value_of}
use vllm_chill.Metrics.Recorded.{Metrics, Call, request, operation, scale_op}
use vllm_chill.Metrics.Recorded.Consistent.{IsConsistent, perform_all, perform_all-IsConsistent}
use vllm_chill.Metrics.Idle.{
  Idle, new_recorder, stop, update_activity, receive_tick, receive_stop, Steps, here, next, stops,
  updates, ticks, ends,
}

abbrev no_metrics : Metrics
no_metrics = record {
  recorder = record { current_model_name = codes ""; current_model = [] };
  requests_total = [];
  request_duration = [];
  request_payload_size = [];
  response_payload_size = [];
  managed_operations = [];
  managed_operation_duration = [];
  scale_ops = [];
  scale_op_duration = [];
  current_replicas = 0;
  xml_parsing_total = [];
  xml_tool_calls_detected = 0;
  proxy_latency = [];
  vllm_startup_duration = [];
  vllm_shutdown_duration = [];
  vllm_state = 0;
}

no_metrics-IsConsistent : IsConsistent no_metrics
unfolding value_of
no_metrics-IsConsistent = record {
  requests = λ l. refl;
  operations = λ a b. refl;
  scaled = λ d. refl;
}

-- A scale-up that fails, one that succeeds, a model switch, and a request.
abbrev some_calls : List Call
some_calls =
    scale_op (codes "up") false 3
    ∷ scale_op (codes "up") true 40
    ∷ operation (codes "a") (codes "b") true 50
    ∷ request (codes "POST") (codes "/v1/chat/completions") 200 7 12 0
    ∷ []

perform_all-IsConsistent_example : IsConsistent (perform_all some_calls no_metrics)
perform_all-IsConsistent_example =
    perform_all-IsConsistent some_calls no_metrics no_metrics-IsConsistent

-- the bounds of prometheus.DefBuckets, in thousandths
abbrev default_buckets : List ℕ
default_buckets = 5 ∷ 10 ∷ 25 ∷ 50 ∷ 100 ∷ 250 ∷ 500 ∷ 1000 ∷ 2500 ∷ 5000 ∷ 10000 ∷ []

abbrev shown_twice : Idle
shown_twice = record { last_activity_time = 20; idle_time = 10; closed = true; running = false }

-- An activity, a tick, Stop, one tick more, and the end.
ends_after_stop : Steps (new_recorder 5) shown_twice
unfolding new_recorder stop update_activity receive_tick receive_stop
ends_after_stop =
    next (next (next (next (next here (updates 20)) (ticks 24 refl)) (stops refl)) (ticks 30 refl))
      (ends refl refl)
