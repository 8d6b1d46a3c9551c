-- ===== src/Proxy/Writer/Write/Event.antt =====
-- What a client reads in the chunk that buildSingleToolCallChunk makes.
use vllm_chill.Prelude.{
  ℕ, Bytes, codes, same, same_refl, Bool-cases, inl, inr, some, List, ◌≡◌, refl,
}
use vllm_chill.Proxy.Json.{
  Json, num, str, nil, cons, Fields, end, field, Chunk, find_field, get_field, set_field, as_object,
  as_items, first_item,
}
use vllm_chill.Proxy.Writer.{ToolCall, delta_of, tool_calls_of}
use vllm_chill.Proxy.Writer.Write.{template_chunk, single_chunk, tool_call_choices}

set_field-found : (k : Bytes) (v : Json) (m : Fields) → find_field k (set_field k v m) ≡ some v
unfolding find_field set_field
set_field-found k v end = rw (same_refl k) refl
set_field-found k v (field j w m) = elim (Bool-cases (same j k)) [
  | inl found ↦ rw (found, find_field, same_refl k) refl
  | inr other ↦ rw (other, find_field, other) (set_field-found k v m)
]

-- choices[0] of a chunk
abbrev pub choice_of : Fields → Chunk
choice_of m = as_object (first_item (as_items (get_field (codes "choices") (some m))))

-- choices[0].delta.tool_calls[0] of a chunk
abbrev pub call_of : Fields → Chunk
call_of m = as_object (first_item (tool_calls_of (some m)))

-- The chunk gives one call, with these fields, and ends the answer.
pub record IsCallChunk (id kind name arguments : Bytes) (m : Fields) : Type 0 where
  pub one_choice : (x : Json) × (as_items (get_field (codes "choices") (some m)) ≡ cons x nil)
  pub one_call : (x : Json) × (tool_calls_of (some m) ≡ cons x nil)
  pub choice_index : get_field (codes "index") (choice_of m) ≡ some (num (codes "0"))
  pub call_index : get_field (codes "index") (call_of m) ≡ some (num (codes "0"))
  pub call_id : get_field (codes "id") (call_of m) ≡ some (str id)
  pub call_type : get_field (codes "type") (call_of m) ≡ some (str kind)
  pub called :
      get_field (codes "name") (as_object (get_field (codes "function") (call_of m)))
      ≡ some (str name)
  pub given :
      get_field (codes "arguments") (as_object (get_field (codes "function") (call_of m)))
      ≡ some (str arguments)
  pub finished : get_field (codes "finish_reason") (choice_of m) ≡ some (str (codes "tool_calls"))

choices-IsCallChunk :
    (t : ToolCall) (m : Fields)
    → find_field (codes "choices") m ≡ some (tool_call_choices t)
    → IsCallChunk t.id t.kind t.name t.arguments m
unfolding tool_call_choices get_field tool_calls_of delta_of as_object as_items first_item
    find_field same
choices-IsCallChunk t m e = record {
  one_choice = rw e (_, refl);
  one_call = rw e (_, refl);
  choice_index = rw e refl;
  call_index = rw e refl;
  call_id = rw e refl;
  call_type = rw e refl;
  called = rw e refl;
  given = rw e refl;
  finished = rw e refl;
}

-- The chunk of a call is read as that call, whatever it is made from.
pub single_chunk-IsCallChunk :
    (now : ℕ) (t : ToolCall) (cs : List Chunk)
    → IsCallChunk t.id t.kind t.name t.arguments (single_chunk now t cs)
unfolding single_chunk
single_chunk-IsCallChunk now t cs =
    choices-IsCallChunk t (single_chunk now t cs)
      (set_field-found (codes "choices") (tool_call_choices t) (template_chunk now t cs))
