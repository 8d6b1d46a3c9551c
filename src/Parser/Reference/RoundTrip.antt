-- ===== src/Parser/Reference/RoundTrip.antt =====
-- Parameters written in the legacy format are read back.
use vllm_chill.Prelude.{
  ℕ, zero, suc, ◌<◌, Bytes, codes, Assoc, insert, has_prefix, trim_prefix, [], ◌∷◌, ◌++◌, length,
  drop, All, length-append, arith, ◌≡◌, ◌≢◌, refl, ap, ◌∙◌,
}
use vllm_chill.Parser.Run.{returns}
use vllm_chill.Parser.Text.{trim_space}
use vllm_chill.Parser.Cut.{cut}
use vllm_chill.Parser.Cut.Skips.{Lacks, Skips, Lacks-Skips, Skips-append, cut-Skips}
use vllm_chill.Parser.Parameters.{put_parameter, parse_parameters}
use vllm_chill.Parser.Reference.{
  parameter, read_value, read_name, read_tag, read_next, read_parameter, read_from, read_parameters,
}
use vllm_chill.Parser.Reference.Loop.{parse_parameters-read}

-- <parameter=name>value</parameter>
abbrev pub render_parameter : Bytes × Bytes → Bytes → Bytes
render_parameter (name, value) rest =
    codes "<parameter=" ++ (name ++ (codes ">" ++ (value ++ (codes "</parameter>" ++ rest))))

abbrev pub render_parameters : Assoc Bytes → Bytes → Bytes
render_parameters [] rest = rest
render_parameters (p ∷ ps) rest = render_parameter p (render_parameters ps rest)

-- A name without `<` and `>` and a value without `<`, neither with white space around it.
abbrev pub IsWritable : Bytes × Bytes → Type 0
IsWritable (name, value) =
    (name ≢ [])
    × (trim_space name ≡ name)
    × (Lacks b'<' name × Lacks b'>' name)
    × ((trim_space value ≡ value) × Lacks b'<' value)

-- Each parameter in turn, a later one in the place of an earlier one of its name.
abbrev pub put_all : Assoc Bytes → Assoc Bytes → Assoc Bytes
put_all [] params = params
put_all ((name, value) ∷ ps) params = put_all ps (insert name value params)

read_parameter-render :
    (name value rest : Bytes)
    → IsWritable (name, value)
    → read_parameter (render_parameter (name, value) rest) ≡ parameter name value rest
unfolding read_parameter read_tag read_name read_value trim_prefix has_prefix
read_parameter-render name value rest (named, hn, (_, ln), (hv, lv)) =
    let after_name = value ++ (codes "</parameter>" ++ rest) in
    ap read_tag (
      cut-Skips b'<' (drop 1 (codes "<parameter=")) [] (name ++ (codes ">" ++ after_name))
        (Lacks-Skips b'<' (drop 1 (codes "<parameter=")) [] tt))
    ∙ ap read_name (cut-Skips b'>' [] name after_name (Lacks-Skips b'>' [] name ln))
    ∙ ap (read_value (trim_space name) after_name) (
        cut-Skips b'<' (drop 1 (codes "</parameter")) value (codes ">" ++ rest)
          (Lacks-Skips b'<' (drop 1 (codes "</parameter")) value lv))
    ∙ rw (hn, hv) refl

length-render_parameter :
    (p : Bytes × Bytes) (rest : Bytes) → length rest < length (render_parameter p rest)
length-render_parameter (name, value) rest = omega (
  arith,
  length-append name (codes ">" ++ (value ++ (codes "</parameter>" ++ rest))),
  length-append value (codes "</parameter>" ++ rest),
)

put_parameter-insert :
    (name value : Bytes) (params : Assoc Bytes)
    → name ≢ []
    → put_parameter name value params ≡ insert name value params
unfolding put_parameter
put_parameter-insert [] value params h = elim (h refl) [ ]
put_parameter-insert (c ∷ name) value params h = refl

read_from-render :
    (fuel : ℕ) (ps : Assoc Bytes) (params : Assoc Bytes)
    → length (render_parameters ps []) < fuel
    → All IsWritable ps
    → read_from fuel (render_parameters ps []) params ≡ put_all ps params
unfolding read_from read_next read_parameter read_tag cut has_prefix
read_from-render zero ps params h w = ground (arith, h)
read_from-render (suc fuel) [] params h w = refl
read_from-render (suc fuel) ((name, value) ∷ ps) params h (hw, w) =
    rw
      (
        read_parameter-render name value (render_parameters ps []) hw,
        put_parameter-insert name value params hw.0,
      )
      (read_from-render fuel ps (insert name value params)
        (omega (arith, h, length-render_parameter (name, value) (render_parameters ps []))) w)

pub read_parameters-render :
    (ps : Assoc Bytes)
    → All IsWritable ps
    → read_parameters (render_parameters ps []) ≡ put_all ps []
unfolding read_parameters
read_parameters-render ps w =
    read_from-render (suc (length (render_parameters ps []))) ps [] (omega arith) w

-- Parameters written in the legacy format are read back: each name with its value, the last one of a
-- name that is written twice. The names hold no `<` and `>`, the values no `<`, neither has white
-- space around it, and no name is empty.
pub parse_parameters-render :
    (ps : Assoc Bytes)
    → All IsWritable ps
    → parse_parameters (render_parameters ps []) ≡ returns (put_all ps [])
parse_parameters-render ps w =
    parse_parameters-read (render_parameters ps []) ∙ ap returns (read_parameters-render ps w)

-- A mark that starts with `<` and is none of the parameters' tags is not found in them.
module _ (ms : Bytes) (h_open : Skips (b'<' ∷ ms) (codes "<parameter="))
    (h_close : Skips (b'<' ∷ ms) (codes "</parameter>")) where
  pub render_parameters-Skips :
      (ps : Assoc Bytes) → All IsWritable ps → Skips (b'<' ∷ ms) (render_parameters ps [])
  render_parameters-Skips [] w = Lacks-Skips b'<' ms [] tt
  render_parameters-Skips ((name, value) ∷ ps) ((_, _, (ln, _), (_, lv)), w) =
      Skips-append mark (codes "<parameter=") after_open h_open (
        Skips-append mark name after_name (Lacks-Skips b'<' ms name ln) (
          Skips-append mark (codes ">") after_tag (Lacks-Skips b'<' ms (codes ">") (refl, tt)) (
            Skips-append mark value after_value (Lacks-Skips b'<' ms value lv) (
              Skips-append mark (codes "</parameter>") (render_parameters ps []) h_close
                (render_parameters-Skips ps w)))))
    where
      mark : Bytes
      mark = b'<' ∷ ms

      after_value : Bytes
      after_value = codes "</parameter>" ++ render_parameters ps []

      after_tag : Bytes
      after_tag = value ++ after_value

      after_name : Bytes
      after_name = codes ">" ++ after_tag

      after_open : Bytes
      after_open = name ++ after_name
