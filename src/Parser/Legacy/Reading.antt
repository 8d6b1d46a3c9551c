-- ===== src/Parser/Legacy/Reading.antt =====
-- The legacy calls read by cutting the text, with no indices: what parseLegacyFormat means.
use vllm_chill.Prelude.{ℕ, zero, suc, Bytes, codes, Option, none, some, List, [], ◌∷◌, length}
use vllm_chill.Parser.Text.{trim_space, remove_first}
use vllm_chill.Parser.Call.{ToolCall, Packages}
use vllm_chill.Parser.Cut.{cut}
use vllm_chill.Parser.Reference.{read_parameters}
use vllm_chill.Parser.Legacy.{legacy_arguments, tool_call}

-- A call's name and arguments, and the text after it.
pub data CallReading : Type 0 where
  nothing : CallReading
  reading : Bytes → Bytes → Bytes → CallReading

-- The body of a call; the first closing tag of the function in it does not count.
unfoldable pub body_arguments : Packages → Bytes → Bytes
body_arguments packages body =
    legacy_arguments packages (read_parameters (remove_first (codes "</function>") body))

-- A call without a closing tag takes the rest of the text.
unfoldable pub read_body : Packages → Bytes → Bytes → Option (Bytes × Bytes) → CallReading
read_body packages name rest none = reading name (body_arguments packages rest) []
read_body packages name rest (some (body, after)) =
    reading name (body_arguments packages body) after

unfoldable pub read_function : Packages → Option (Bytes × Bytes) → CallReading
unfolding cut
read_function packages none = nothing
read_function packages (some (name, rest)) =
    read_body packages (trim_space name) rest (cut (codes "</tool_call>") rest)

unfoldable pub read_start : Packages → Option (Bytes × Bytes) → CallReading
unfolding cut
read_start packages none = nothing
read_start packages (some (before, tag)) = read_function packages (cut (codes ">") tag)

unfoldable pub read_call : Packages → Bytes → CallReading
unfolding cut
read_call packages s = read_start packages (cut (codes "<function=") s)

unfoldable pub read_next_call : (Bytes → ℕ → List ToolCall) → ℕ → CallReading → List ToolCall
read_next_call again call_index nothing = []
read_next_call again call_index (reading name arguments after) =
    tool_call call_index name arguments ∷ again after (suc call_index)

unfoldable pub read_calls_from : Packages → ℕ → Bytes → ℕ → List ToolCall
unfolding read_next_call
read_calls_from packages zero s call_index = []
read_calls_from packages (suc fuel) s call_index =
    read_next_call (read_calls_from packages fuel) call_index (read_call packages s)

-- Each call is longer than its opening tag, so the text has fewer of them than bytes.
unfoldable pub read_calls : Packages → Bytes → List ToolCall
read_calls packages s = read_calls_from packages (suc (length s)) s 0
