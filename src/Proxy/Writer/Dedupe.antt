-- ===== src/Proxy/Writer/Dedupe.antt =====
-- deduplicateToolCallChunks of pkg/proxy/response_writer.go.
pub mod Lines
pub mod Repeat
use vllm_chill.Prelude.{
  ℕ, ◌-◌, suc, Bytes, codes, same, split_on, has_prefix, trim_prefix, Bool, true, false, not, ◌&&◌,
  ◌||◌, Option, none, some, List, [], ◌∷◌, ◌++◌, length, ℤ, pos, negsuc, same_int, leb,
  if◌then◌else◌,
}
use vllm_chill.Kubernetes.Models.{is_empty}
use vllm_chill.Proxy.Json.{
  Json, null, bool, num, str, arr, obj, Items, nil, cons, Chunk, get_field, as_map, as_object,
  as_text,
}
use vllm_chill.Proxy.Writer.{Env, Writer, tool_calls_of, payload_of}

-- a Go map used as a set
unfoldable pub member : Bytes → List Bytes → Bool
unfolding same
member k [] = false
member k (j ∷ js) = same j k || member k js

-- m[i] of a map[int]string
unfoldable pub last_args : ℤ → List (ℤ × Bytes) → Bytes
last_args i [] = []
last_args i ((j, s) ∷ m) = if same_int j i then s else last_args i m

-- toolCall["index"] as a float64, else 0
abbrev pub index_of : Env → Option Json → ℤ
index_of env (some (num x)) = env.to_int x
index_of env _ = pos 0

-- What one tool call says.
pub record CallInfo : Type 0 where
  pub index : ℤ
  pub tool_id : Bytes
  pub args : Bytes

unfoldable pub call_info : Env → Chunk → CallInfo
unfolding get_field as_text as_object
call_info env c = record {
  index = index_of env (get_field (codes "index") c);
  tool_id = as_text (get_field (codes "id") c);
  args = as_text (get_field (codes "arguments") (as_object (get_field (codes "function") c)));
}

-- a start event that was already sent
abbrev pub repeats_start : CallInfo → Writer → Bool
repeats_start i w =
    not (is_empty i.tool_id) && (is_empty i.args && member i.tool_id w.tool_call_ids)

abbrev pub with_start : CallInfo → Writer → Writer
with_start i w =
    if not (is_empty i.tool_id) && is_empty i.args
    then record w { tool_call_ids = i.tool_id ∷ w.tool_call_ids }
    else w

-- the same arguments as the last ones of the index
abbrev pub repeats_args : CallInfo → Writer → Bool
repeats_args i w = not (is_empty i.args) && same (last_args i.index w.last_tool_call_args) i.args

abbrev pub with_args : CallInfo → Writer → Writer
with_args i w =
    if not (is_empty i.args)
    then record w { last_tool_call_args = (i.index, i.args) ∷ w.last_tool_call_args }
    else w

-- The loop over the tool calls of a chunk: whether the chunk is skipped. A call that is no object
-- is passed over.
unfoldable pub check_calls : Env → Items → Writer → Bool × Writer
unfolding member last_args call_info is_empty
check_calls env nil w = (false, w)
check_calls env (cons (obj m) xs) w =
    let i = call_info env (some m) in
    let rest = check_calls env xs (with_args i (with_start i w)) in
    if repeats_start i w
    then (true, w)
    else if repeats_args i (with_start i w)
    then (true, with_start i w)
    else rest
check_calls env (cons _ xs) w = check_calls env xs w

-- the chunk's tool calls, none if json.Unmarshal refuses the line
abbrev pub calls_in : Option Chunk → Items
calls_in none = nil
calls_in (some c) = tool_calls_of c

-- a data line that is not the end marker: whether it is passed on
unfoldable pub check_payload : Env → Bytes → Writer → Bool × Writer
unfolding check_calls tool_calls_of as_map member
check_payload env s w =
    if member (env.hash s) w.seen_chunks
    then (false, w)
    else let (skip, w') =
        check_calls env (calls_in (as_map (env.unmarshal s)))
          (record w { seen_chunks = env.hash s ∷ w.seen_chunks }) in
      (not skip, w')

-- whether a line is passed on, by its payload and whether something was written before
unfoldable pub check_line : Env → Bytes → Option Bytes → Bool → Writer → Bool × Writer
unfolding check_payload is_empty
check_line env l none started w = (not (is_empty l) || started, w)
check_line env l (some s) started w =
    if same s (codes "[DONE]") then (true, w) else check_payload env s w

abbrev pub newline : ℕ
newline = b'\n'

-- output.WriteString(line) and a newline, for a line that is passed on
abbrev pub emit : Bool → Bytes → Bytes → Bytes
emit keep l output = if keep then output ++ (l ++ newline ∷ []) else output

abbrev pub is_cons : Bytes → Bool
is_cons [] = false
is_cons (c ∷ s) = true

unfoldable pub dedupe_lines : Env → List Bytes → Bytes → Writer → Bytes × Writer
unfolding check_line payload_of
dedupe_lines env [] output w = (output, w)
dedupe_lines env (l ∷ ls) output w =
    let (keep, w') = check_line env l (payload_of l) (is_cons output) w in
    dedupe_lines env ls (emit keep l output) w'

-- a - b as an int
abbrev pub sub_int : ℕ → ℕ → ℤ
sub_int a b = if leb b a then pos (a - b) else negsuc (b - suc a)

-- The bytes that are left, and the number of bytes filtered.
unfoldable pub deduplicate : Env → Bytes → Writer → (Bytes × ℤ) × Writer
unfolding dedupe_lines split_on
deduplicate env b w =
    let (output, w') = dedupe_lines env (split_on newline b) [] w in
    ((output, sub_int (length b) (length output)), w')
