-- ===== src/Parser/Legacy/RoundTrip.antt =====
-- Calls written in the legacy format are read back.
use vllm_chill.Prelude.{
  ℕ, zero, suc, ◌<◌, Bytes, codes, Assoc, has_prefix, List, [], ◌∷◌, ◌++◌, length, drop, All,
  length-append, append-nil, arith, ◌≡◌, refl, ap, ◌∙◌,
}
use vllm_chill.Parser.Run.{returns}
use vllm_chill.Parser.Text.{trim_space}
use vllm_chill.Parser.Ids.{generate_tool_call_id}
use vllm_chill.Parser.Call.{ToolCall, Packages}
use vllm_chill.Parser.Cut.{cut}
use vllm_chill.Parser.Cut.Skips.{
  Lacks, Skips, Lacks-Skips, Skips-append, cut-Skips, remove_first-Skips, is_clear_of-Skips,
}
use vllm_chill.Parser.Reference.{read_parameters}
use vllm_chill.Parser.Reference.RoundTrip.{
  IsWritable, put_all, render_parameters, read_parameters-render, render_parameters-Skips,
}
use vllm_chill.Parser.Legacy.{tool_call, legacy_arguments, parse_legacy_format}
use vllm_chill.Parser.Legacy.Reading.{
  reading, body_arguments, read_body, read_function, read_start, read_call, read_next_call,
  read_calls_from, read_calls,
}
use vllm_chill.Parser.Legacy.Calls.{parse_legacy_format-read}

-- <function=name>parameters</function></tool_call>
abbrev pub render_call : Bytes × Assoc Bytes → Bytes → Bytes
render_call (name, ps) rest =
    codes "<function="
    ++ (name
        ++ (codes ">"
            ++ (render_parameters ps [] ++ codes "</function>" ++ (codes "</tool_call>" ++ rest))))

abbrev pub render_calls : List (Bytes × Assoc Bytes) → Bytes
render_calls [] = []
render_calls (c ∷ cs) = render_call c (render_calls cs)

abbrev pub IsWritableCall : Bytes × Assoc Bytes → Type 0
IsWritableCall (name, ps) = (trim_space name ≡ name) × Lacks b'>' name × All IsWritable ps

-- A call of a function, by its id, name and arguments.
abbrev pub written_call : Bytes → Bytes → Bytes → ToolCall
written_call id name arguments = record {
  id = id;
  kind = codes "function";
  name = name;
  arguments = arguments;
}

-- The calls with their ids from `k` on.
abbrev pub numbered : Packages → ℕ → List (Bytes × Assoc Bytes) → List ToolCall
numbered packages k [] = []
numbered packages k ((name, ps) ∷ cs) =
    written_call (generate_tool_call_id k) name (legacy_arguments packages (put_all ps []))
    ∷ numbered packages (suc k) cs

-- The closing tags are not found in the parameters.
parameters-SkipFunction :
    (ps : Assoc Bytes) → All IsWritable ps → Skips (codes "</function>") (render_parameters ps [])
parameters-SkipFunction =
    render_parameters-Skips (drop 1 (codes "</function>"))
      (is_clear_of-Skips (codes "</function>") (codes "<parameter=") refl)
      (is_clear_of-Skips (codes "</function>") (codes "</parameter>") refl)

body-SkipCall :
    (ps : Assoc Bytes)
    → All IsWritable ps
    → Skips (codes "</tool_call>") (render_parameters ps [] ++ codes "</function>")
body-SkipCall ps w =
    Skips-append (codes "</tool_call>") (render_parameters ps []) (codes "</function>")
      (render_parameters-Skips (drop 1 (codes "</tool_call>"))
        (is_clear_of-Skips (codes "</tool_call>") (codes "<parameter=") refl)
        (is_clear_of-Skips (codes "</tool_call>") (codes "</parameter>") refl) ps w)
      (is_clear_of-Skips (codes "</tool_call>") (codes "</function>") refl)

body_arguments-render :
    (packages : Packages) (ps : Assoc Bytes)
    → All IsWritable ps
    → body_arguments packages (render_parameters ps [] ++ codes "</function>")
      ≡ legacy_arguments packages (put_all ps [])
unfolding body_arguments
body_arguments-render packages ps w =
    ap (λ t. legacy_arguments packages (read_parameters t))
      (remove_first-Skips b'<' (drop 1 (codes "</function>")) (render_parameters ps []) []
          (parameters-SkipFunction ps w)
        ∙ append-nil (render_parameters ps []))
    ∙ ap (legacy_arguments packages) (read_parameters-render ps w)

read_call-render :
    (packages : Packages) (name : Bytes) (ps : Assoc Bytes) (rest : Bytes)
    → IsWritableCall (name, ps)
    → read_call packages (render_call (name, ps) rest)
      ≡ reading name (legacy_arguments packages (put_all ps [])) rest
unfolding read_call read_start read_function read_body
read_call-render packages name ps rest (hn, ln, w) =
    let body = render_parameters ps [] ++ codes "</function>" in
    let after_name = body ++ (codes "</tool_call>" ++ rest) in
    ap (read_start packages) (
      cut-Skips b'<' (drop 1 (codes "<function=")) [] (name ++ (codes ">" ++ after_name))
        (is_clear_of-Skips (codes "<function=") [] refl))
    ∙ ap (read_function packages) (cut-Skips b'>' [] name after_name (Lacks-Skips b'>' [] name ln))
    ∙ ap (read_body packages (trim_space name) after_name)
        (cut-Skips b'<' (drop 1 (codes "</tool_call>")) body rest (body-SkipCall ps w))
    ∙ rw (hn, body_arguments-render packages ps w) refl

length-render_call :
    (c : Bytes × Assoc Bytes) (rest : Bytes) → length rest < length (render_call c rest)
length-render_call (name, ps) rest =
    let body = render_parameters ps [] ++ codes "</function>" in
    omega (
      arith,
      length-append name (codes ">" ++ (body ++ (codes "</tool_call>" ++ rest))),
      length-append body (codes "</tool_call>" ++ rest),
    )

read_call_nil :
    (packages : Packages) (fuel k : ℕ)
    → read_next_call (read_calls_from packages fuel) k (read_call packages []) ≡ []
unfolding read_next_call read_call read_start cut has_prefix
read_call_nil packages fuel k = refl

read_calls_from-render :
    (packages : Packages) (fuel k : ℕ) (cs : List (Bytes × Assoc Bytes))
    → length (render_calls cs) < fuel
    → All IsWritableCall cs
    → read_calls_from packages fuel (render_calls cs) k ≡ numbered packages k cs
unfolding read_calls_from read_next_call tool_call
read_calls_from-render packages zero k cs h w = ground (arith, h)
read_calls_from-render packages (suc fuel) k [] h w = read_call_nil packages fuel k
read_calls_from-render packages (suc fuel) k ((name, ps) ∷ cs) h (hc, w) =
    rw (read_call-render packages name ps (render_calls cs) hc) (
      ap
        (λ t.
          written_call (generate_tool_call_id k) name (legacy_arguments packages (put_all ps []))
          ∷ t)
        (read_calls_from-render packages fuel (suc k) cs
          (omega (arith, h, length-render_call (name, ps) (render_calls cs))) w))

-- Calls written in the legacy format are read back in their order: each with its name, with the JSON
-- form of its parameters as arguments, and with the id of its position. The names hold no `>` and have
-- no white space around them; the parameters are such that they are read back.
pub parse_legacy_format-render :
    (packages : Packages) (cs : List (Bytes × Assoc Bytes))
    → All IsWritableCall cs
    → parse_legacy_format packages (render_calls cs) ≡ returns (numbered packages 0 cs)
unfolding read_calls
parse_legacy_format-render packages cs w =
    parse_legacy_format-read packages (render_calls cs)
    ∙ ap returns
        (read_calls_from-render packages (suc (length (render_calls cs))) 0 cs (omega arith) w)
