-- ===== src/Operation.antt =====
-- pkg/operation: the handlers of manual starts and stops, over the interface that they ask for, and
-- the autoscaler as its implementation.
pub mod Running
use vllm_chill.Prelude.{ℕ, Bytes, codes, same, Error, Result, ok, err, panic, ◌++◌, if◌then◌else◌}
use vllm_chill.Kubernetes.Config.{Config}
use vllm_chill.Proxy.Scaler.{World, Scaler, ensure_scaled_up, update_activity}
use vllm_chill.Proxy.Background.{stop as stop_scaler}

-- Manager
pub record Manager (State : Type 0) : Type 0 where
  pub start : State → Result (Unit {0}) × State
  pub stop : State → Result (Unit {0}) × State
  pub update_activity : State → State

-- The replies, with the message of an error.
pub data Reply : Type 0 where
  method_not_allowed : Reply
  success : Reply
  start_failed : Bytes → Reply
  stop_failed : Bytes → Reply
  crashed : Reply

unfoldable pub status_of : Reply → ℕ
status_of method_not_allowed = 405
status_of success = 200
status_of (start_failed m) = 500
status_of (stop_failed m) = 500
status_of crashed = 500

-- the reply to an outcome, by what an error becomes
abbrev pub reply_to : (Error → Reply) → Result (Unit {0}) → Reply
reply_to failure (ok u) = success
reply_to failure (err e) = failure e
reply_to failure panic = crashed

module _ {State : Type 0} (manager : Manager State) where
  -- the part of both start handlers behind the check of the method
  abbrev pub start_with : (Error → Reply) → State → Reply × State
  start_with failure s =
      let (r, s') = manager.start (manager.update_activity s) in (reply_to failure r, s')

  abbrev pub stop_with : (Error → Reply) → State → Reply × State
  stop_with failure s = let (r, s') = manager.stop s in (reply_to failure r, s')

  -- (*Handler).StartHandler
  unfoldable pub start_handler : Bytes → State → Reply × State
  start_handler method s =
      if same method (codes "POST")
      then start_with (λ e. start_failed (codes "Failed to start vLLM: " ++ e.message)) s
      else (method_not_allowed, s)

  -- (*Handler).StopHandler
  unfoldable pub stop_handler : Bytes → State → Reply × State
  stop_handler method s =
      if same method (codes "POST")
      then stop_with (λ e. stop_failed (codes "Failed to stop vLLM: " ++ e.message)) s
      else (method_not_allowed, s)

  -- (*GinHandler).StartHandler; the router chooses by the method.
  unfoldable pub gin_start_handler : State → Reply × State
  gin_start_handler s = start_with (λ e. start_failed e.message) s

  -- (*GinHandler).StopHandler
  unfoldable pub gin_stop_handler : State → Reply × State
  gin_stop_handler s = stop_with (λ e. stop_failed e.message) s

-- The autoscaler as a manager: Start, Stop and UpdateActivity of pkg/proxy/autoscaler.go.
abbrev pub scaler_manager :
    (world : World) → Config → (Scaler world → Scaler world) → ℕ → Manager (Scaler world)
scaler_manager world config others ticks = record {
  start = ensure_scaled_up world config others ticks;
  stop = stop_scaler world config;
  update_activity = update_activity world config;
}
