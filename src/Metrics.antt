-- ===== src/Metrics.antt =====
-- pkg/stats/metrics.go, the recorder's account of the current model. The gauge vector of Prometheus
-- is an association list: what was last set for each label.
pub mod Current
pub mod Series
pub mod Declared
pub mod Idle
pub mod Recorded
use vllm_chill.Prelude.{ℕ, Bytes, same, Bool, true, false, not, ◌&&◌, Assoc, insert, if◌then◌else◌}
use vllm_chill.Kubernetes.Models.{is_empty}

pub record Recorder : Type 0 where
  pub current_model_name : Bytes
  -- the gauge vector currentModel
  pub current_model : Assoc ℕ

-- Sets the gauge of the current model to 0, if there is one and it is not the model that is given.
unfoldable pub clear_other : Bytes → Recorder → Recorder
clear_other to_model r =
    if not (is_empty r.current_model_name) && not (same r.current_model_name to_model)
    then record r { current_model = insert r.current_model_name 0 r.current_model }
    else r

unfoldable pub set_to : Bytes → Recorder → Recorder
set_to to_model r = record {
  current_model_name = to_model;
  current_model = insert to_model 1 r.current_model;
}

-- SetCurrentModel
unfoldable pub set_current_model : Bytes → Recorder → Recorder
set_current_model model_name r = set_to model_name (clear_other model_name r)

-- RecordManagedOperation, its part from "Update current model" on
unfoldable pub record_managed_operation : Bytes → Bool → Recorder → Recorder
record_managed_operation to_model success r =
    if success then set_to to_model (clear_other to_model r) else clear_other to_model r
