-- ===== src/Kubernetes/Args/Command.antt =====
-- The command line of vLLM as a list of options, and its reading back into a map.
use vllm_chill.Prelude.{
  Bytes, codes, same, true, some, List, [], ◌∷◌, ◌++◌, ◌≡◌, refl, All, All-append, arith,
  if◌then◌else◌, format_int, Bool-cases, ◌⊎◌, inl, inr,
}
use vllm_chill.Kubernetes.Config.{Config}
use vllm_chill.Kubernetes.Models.{ModelConfig, is_empty}
use vllm_chill.Kubernetes.Args.{build_vllm_args, gpu_count_of, switch, args_to_map}
use vllm_chill.Kubernetes.Args.Items.{
  Item, pair, flag, Fits, is_value, starts_with_dash, render, record_all, args_loop-render,
}

unfoldable pub switch_item : Bytes → Bytes → List Item
switch_item field name = if same field (codes "true") then flag name ∷ [] else []

unfoldable pub reasoning_item : Bytes → List Item
unfolding is_empty
reasoning_item r = if is_empty r then [] else pair (codes "--reasoning-parser") r ∷ []

unfoldable pub model_items : Config → ModelConfig → List Item
model_items c m =
    pair (codes "--model") m.model_name
    ∷ pair (codes "--served-model-name") m.served_model_name
    ∷ pair (codes "--tensor-parallel-size") (format_int (gpu_count_of c))
    ∷ pair (codes "--max-model-len") m.max_model_len
    ∷ pair (codes "--gpu-memory-utilization") m.gpu_memory_utilization
    ∷ []

unfoldable pub batch_items : ModelConfig → List Item
batch_items m =
    pair (codes "--max-num-batched-tokens") m.max_num_batched_tokens
    ∷ pair (codes "--max-num-seqs") m.max_num_seqs
    ∷ pair (codes "--dtype") m.dtype
    ∷ []

unfoldable pub offload_items : Config → List Item
offload_items c = pair (codes "--cpu-offload-gb") (format_int c.cpu_offload_gb) ∷ []

unfoldable pub parser_items : ModelConfig → List Item
parser_items m = pair (codes "--tool-call-parser") m.tool_call_parser ∷ []

unfoldable pub server_items : List Item
server_items =
    pair (codes "--host") (codes "0.0.0.0")
    ∷ pair (codes "--port") (codes "8000")
    ∷ pair (codes "--api-key") (codes "$(VLLM_API_KEY)")
    ∷ []

-- The options of buildVLLMArgs, in its order.
unfoldable pub items : Config → ModelConfig → List Item
items c m =
    model_items c m
    ++ (switch_item m.enable_chunked_prefill (codes "--enable-chunked-prefill")
        ++ (batch_items m
            ++ (switch_item m.disable_custom_all_reduce (codes "--disable-custom-all-reduce")
                ++ (switch_item m.enable_prefix_caching (codes "--enable-prefix-caching")
                    ++ (offload_items c
                        ++ (switch_item m.enable_auto_tool_choice
                              (codes "--enable-auto-tool-choice")
                            ++ (parser_items m
                                ++ (reasoning_item m.reasoning_parser ++ server_items))))))))

render-append : (is js : List Item) → render (is ++ js) ≡ render is ++ render js
unfolding render
render-append [] js = refl
render-append (pair k v ∷ is) js = rw (render-append is js)
render-append (flag k ∷ is) js = rw (render-append is js)

render-switch_item : (f k : Bytes) → render (switch_item f k) ≡ switch f k
unfolding render switch_item switch
render-switch_item f k = ground arith

render-reasoning_item :
    (r : Bytes)
    → render (reasoning_item r) ≡ (if is_empty r then [] else codes "--reasoning-parser" ∷ r ∷ [])
unfolding render reasoning_item
render-reasoning_item [] = refl
render-reasoning_item (c ∷ r) = refl

pub render-items : (c : Config) (m : ModelConfig) → render (items c m) ≡ build_vllm_args c m
render-items c m =
    unfold items build_vllm_args in
    simp (render-append, render-switch_item, render-reasoning_item)
      (unfold render model_items batch_items offload_items parser_items server_items in refl)

-- The values of a command line that is read back as it was built: none empty or like an option.
pub record IsReadable (c : Config) (m : ModelConfig) : Type 0 where
  pub gpu_count : is_value (format_int (gpu_count_of c)) ≡ true
  pub cpu_offload_gb : is_value (format_int c.cpu_offload_gb) ≡ true
  pub model_name : is_value m.model_name ≡ true
  pub served_model_name : is_value m.served_model_name ≡ true
  pub max_model_len : is_value m.max_model_len ≡ true
  pub gpu_memory_utilization : is_value m.gpu_memory_utilization ≡ true
  pub max_num_batched_tokens : is_value m.max_num_batched_tokens ≡ true
  pub max_num_seqs : is_value m.max_num_seqs ≡ true
  pub dtype : is_value m.dtype ≡ true
  pub tool_call_parser : is_value m.tool_call_parser ≡ true
  pub reasoning_parser : (is_empty m.reasoning_parser ≡ true) ⊎ (is_value m.reasoning_parser ≡ true)

switch_item-Fits : (f k : Bytes) → starts_with_dash k ≡ true → All Fits (switch_item f k)
unfolding switch_item
switch_item-Fits f k h = elim (Bool-cases (same f (codes "true"))) [
  | inl e ↦ rw e (h, tt)
  | inr e ↦ rw e tt
]

reasoning_item-Fits :
    (r : Bytes) → (is_empty r ≡ true) ⊎ (is_value r ≡ true) → All Fits (reasoning_item r)
unfolding reasoning_item is_empty
reasoning_item-Fits [] h = tt
reasoning_item-Fits (c ∷ r) (inl e) = cc
reasoning_item-Fits (c ∷ r) (inr e) = ((refl, e), tt)

model_items-Fits : (c : Config) (m : ModelConfig) → IsReadable c m → All Fits (model_items c m)
unfolding model_items
model_items-Fits c m h = ground arith

batch_items-Fits : (c : Config) (m : ModelConfig) → IsReadable c m → All Fits (batch_items m)
unfolding batch_items
batch_items-Fits c m h = ground arith

offload_items-Fits : (c : Config) (m : ModelConfig) → IsReadable c m → All Fits (offload_items c)
unfolding offload_items
offload_items-Fits c m h = ground arith

parser_items-Fits : (c : Config) (m : ModelConfig) → IsReadable c m → All Fits (parser_items m)
unfolding parser_items
parser_items-Fits c m h = ground arith

server_items-Fits : All Fits server_items
unfolding server_items
server_items-Fits = ground arith

switch-Fits :
    (f k : Bytes) (is : List Item)
    → starts_with_dash k ≡ true
    → All Fits is
    → All Fits (switch_item f k ++ is)
switch-Fits f k is h hs = All-append Fits (switch_item f k) is (switch_item-Fits f k h) hs

items-Fits : (c : Config) (m : ModelConfig) → IsReadable c m → All Fits (items c m)
unfolding items
items-Fits c m h = All-append Fits (model_items c m) _ (model_items-Fits c m h) (
    switch-Fits m.enable_chunked_prefill _ _ refl (
      All-append Fits (batch_items m) _ (batch_items-Fits c m h) (
        switch-Fits m.disable_custom_all_reduce _ _ refl (
          switch-Fits m.enable_prefix_caching _ _ refl (
            All-append Fits (offload_items c) _ (offload_items-Fits c m h) (
              switch-Fits m.enable_auto_tool_choice _ _ refl (
                All-append Fits (parser_items m) _ (parser_items-Fits c m h) (
                  All-append Fits (reasoning_item m.reasoning_parser) server_items
                    (reasoning_item-Fits m.reasoning_parser h.reasoning_parser)
                    server_items-Fits))))))))

-- A readable command line is read back without a panic, as the map of its options.
pub args_to_map-build :
    (c : Config) (m : ModelConfig)
    → IsReadable c m
    → args_to_map (build_vllm_args c m) ≡ some (record_all (items c m) [])
unfolding args_to_map
args_to_map-build c m h =
    rw (← render-items c m) (args_loop-render (items c m) [] (items-Fits c m h))
