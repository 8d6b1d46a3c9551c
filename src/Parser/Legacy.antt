-- ===== src/Parser/Legacy.antt =====
-- parseLegacyFormat of pkg/parser/xmltool_parser.go: calls in the form <function=name> … </tool_call>.
pub mod Reading
mod Marks
mod Body
pub mod Calls
pub mod RoundTrip
use vllm_chill.Prelude.{
  ℕ, zero, suc, ◌+◌, Bytes, codes, index, contains, Assoc, get_or_empty, Bool, true, false, Option,
  none, some, List, [], ◌∷◌, ◌++◌, length,
}
use vllm_chill.Parser.Run.{Run, returns, out_of_fuel, ◌>>=◌, slice, slice_from}
use vllm_chill.Parser.Text.{trim_space, remove_first}
use vllm_chill.Parser.Ids.{generate_tool_call_id}
use vllm_chill.Parser.Call.{ToolCall, Packages}
use vllm_chill.Parser.Parameters.{parse_parameters}

-- What one round of the loop comes to: a break, or a call by its name and arguments, and the index
-- where the next round starts.
pub data CallRound : Type 0 where
  no_call : CallRound
  call : Bytes → Bytes → ℕ → CallRound

-- strings.Index(content[funcEnd:], "</tool_call>"), or the length where there is none
unfoldable pub end_in : Bytes → Option ℕ → ℕ
end_in rest none = length rest
end_in rest (some i) = i

unfoldable pub next_index : ℕ → Bool → ℕ
next_index tool_call_end true = tool_call_end + 12
next_index tool_call_end false = tool_call_end

-- json.Marshal with its error ignored
unfoldable pub legacy_arguments : Packages → Assoc Bytes → Bytes
legacy_arguments packages params = get_or_empty (packages.marshal_texts params)

unfoldable pub call_body : Packages → Bytes → Bytes → Bytes → ℕ → ℕ → Run CallRound
unfolding contains
call_body packages content name rest func_end tool_call_end = do
  params_content ← slice (func_end + 1) tool_call_end content
  params ← parse_parameters (remove_first (codes "</function>") params_content)
  returns (
      call (trim_space name) (legacy_arguments packages params)
        (next_index tool_call_end (contains rest (codes "</tool_call>"))))

unfoldable pub call_at : Packages → Bytes → ℕ → ℕ → Run CallRound
unfolding index
call_at packages content func_start func_end = do
  name ← slice (func_start + 10) func_end content
  rest ← slice_from func_end content
  call_body packages content name rest func_end
      (end_in rest (index rest (codes "</tool_call>")) + func_end)

unfoldable pub after_function : Packages → Bytes → ℕ → Option ℕ → Run CallRound
after_function packages content func_start none = returns no_call
after_function packages content func_start (some end) =
    call_at packages content func_start (end + func_start)

unfoldable pub from_function : Packages → Bytes → ℕ → Option ℕ → Run CallRound
unfolding index
from_function packages content idx none = returns no_call
from_function packages content idx (some start) = do
  tag ← slice_from (start + idx) content
  after_function packages content (start + idx) (index tag (codes ">"))

-- the body of the loop
unfoldable pub next_call : Packages → Bytes → ℕ → Run CallRound
unfolding index
next_call packages content idx = do
  rest ← slice_from idx content
  from_function packages content idx (index rest (codes "<function="))

unfoldable pub tool_call : ℕ → Bytes → Bytes → ToolCall
unfolding generate_tool_call_id
tool_call call_index name arguments = record {
  id = generate_tool_call_id call_index;
  kind = codes "function";
  name = name;
  arguments = arguments;
}

unfoldable pub next_call_round :
    (ℕ → ℕ → List ToolCall → Run (List ToolCall))
    → ℕ
    → List ToolCall
    → CallRound
    → Run (List ToolCall)
next_call_round again call_index calls no_call = returns calls
next_call_round again call_index calls (call name arguments next) =
    again next (suc call_index) (calls ++ tool_call call_index name arguments ∷ [])

unfoldable pub legacy_from : Packages → ℕ → Bytes → ℕ → ℕ → List ToolCall → Run (List ToolCall)
unfolding next_call_round
legacy_from packages zero content idx call_index calls = out_of_fuel
legacy_from packages (suc fuel) content idx call_index calls =
    next_call packages content idx
    >>= next_call_round (legacy_from packages fuel content) call_index calls

unfoldable pub parse_legacy_format : Packages → Bytes → Run (List ToolCall)
parse_legacy_format packages content = legacy_from packages (suc (length content)) content 0 0 []
