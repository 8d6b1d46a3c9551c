-- ===== src/Metrics/Current.antt =====
-- Which model the recorder shows as the current one.
use vllm_chill.Prelude.{
  Bytes, same_iff, false, some, [], ◌∷◌, lookup, lookup-insert, ◌≡◌, ◌≢◌, refl, arith,
}
use vllm_chill.Kubernetes.Models.{is_empty}
use vllm_chill.Metrics.{Recorder, clear_other, set_to, set_current_model, record_managed_operation}

-- Only the label of the current model may show 1, and not the empty label.
unfoldable pub IsSingle : Recorder → Type 0
IsSingle r = (m : Bytes) → lookup m r.current_model ≡ some 1 → (m ≡ r.current_model_name) × (m ≢ [])

is_empty-false : (s : Bytes) → s ≢ [] → is_empty s ≡ false
unfolding is_empty
is_empty-false [] h = absurd (h refl)
is_empty-false (c ∷ s) h = refl

-- After the clearing no other label shows 1.
clear_other-none :
    (to_model : Bytes) (r : Recorder)
    → IsSingle r
    → (m : Bytes) → lookup m (clear_other to_model r).current_model ≡ some 1
    → m ≡ to_model
unfolding clear_other IsSingle
clear_other-none to_model r single m shown = ground (
  arith,
  same_iff r.current_model_name m,
  same_iff r.current_model_name to_model,
  is_empty-false r.current_model_name,
  lookup-insert r.current_model_name m 0 r.current_model,
  single m,
)

-- After SetCurrentModel with a name that is not empty, that model's label shows 1 and no other does;
-- before it, no label but the current model's may show 1.
pub set_current_model-IsSingle :
    (to_model : Bytes) (r : Recorder)
    → IsSingle r
    → to_model ≢ []
    → let after = set_current_model to_model r in
      (lookup to_model after.current_model ≡ some 1)
      × (after.current_model_name ≡ to_model)
      × IsSingle after
unfolding set_current_model set_to IsSingle
set_current_model-IsSingle to_model r single named =
    let cleared = clear_other to_model r in
    (
      ground (
        arith,
        lookup-insert to_model to_model 1 cleared.current_model,
        same_iff to_model to_model,
      ),
      refl,
      λ m shown. ground (
        arith,
        same_iff to_model m,
        lookup-insert to_model m 1 cleared.current_model,
        clear_other-none to_model r single m,
      ),
    )

-- RecordManagedOperation of a switch that failed, from a model to another one, leaves the current
-- model's name but takes its label to 0.
pub failed_operation_clears :
    (to_model : Bytes) (r : Recorder)
    → r.current_model_name ≢ []
    → r.current_model_name ≢ to_model
    → let after = record_managed_operation to_model false r in
      (after.current_model_name ≡ r.current_model_name)
      × (lookup r.current_model_name after.current_model ≡ some 0)
unfolding record_managed_operation clear_other
failed_operation_clears to_model r named other = ground (
  arith,
  is_empty-false r.current_model_name,
  same_iff r.current_model_name to_model,
  same_iff r.current_model_name r.current_model_name,
  lookup-insert r.current_model_name r.current_model_name 0 r.current_model,
)
