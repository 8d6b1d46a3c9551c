-- ===== src/Parser/Reference/Loop.antt =====
-- The loop of parseParameters against the reference.
use vllm_chill.Prelude.{
  ℕ, zero, suc, ◌<◌, Bytes, Assoc, has_prefix, true, false, [], ◌++◌, length, arith, ◌≡◌, refl,
}
use vllm_chill.Parser.Run.{Run, returns}
use vllm_chill.Parser.Parameters.{
  Round, stop, found, put_parameter, parameters_from, parse_parameters, next_round,
}
use vllm_chill.Parser.Cut.{cut}
use vllm_chill.Parser.Reference.{
  Reading, nothing, parameter, read_parameter, read_tag, read_next, read_from, read_parameters,
}
use vllm_chill.Parser.Reference.Value.{Agrees}
use vllm_chill.Parser.Reference.Tag.{next_parameter-IsRead}

read_from-empty : (fuel : ℕ) (params : Assoc Bytes) → read_from fuel [] params ≡ params
unfolding read_from read_next read_parameter read_tag cut has_prefix
read_from-empty zero params = refl
read_from-empty (suc fuel) params = refl

module _ (content : Bytes) (size : ℕ) (again : ℕ → Assoc Bytes → Run (Assoc Bytes))
    (again_read : Bytes → Assoc Bytes → Assoc Bytes)
    (agree : (before after : Bytes) (next : ℕ) (params : Assoc Bytes)
      → length after < size
      → content ≡ before ++ after
      → next ≡ length before
      → again next params ≡ returns (again_read after params))
    (at_end : (params : Assoc Bytes) → again_read [] params ≡ params) where
  next_round-read :
      (params : Assoc Bytes) (round : Round) (reading : Reading)
      → Agrees content size round reading
      → next_round again params round ≡ returns (read_next again_read params reading)
  unfolding next_round read_next
  next_round-read params stop nothing h = refl
  next_round-read params (found n v next true) (parameter m w after) (hn, hv, small, last, e) =
      rw (hn, hv, last refl, at_end (put_parameter m w params)) refl
  next_round-read params (found n v next false) (parameter m w after)
        (hn, hv, small, last, (before, e, k)) =
      rw (hn, hv) (agree before after next (put_parameter m w params) small e k)
  next_round-read params stop (parameter m w after) h = ground (arith, h)
  next_round-read params (found n v next ends) nothing h = ground (arith, h)

parameters_from-read :
    (fuel : ℕ) (content before s : Bytes) (idx : ℕ) (params : Assoc Bytes)
    → length s < fuel
    → content ≡ before ++ s
    → idx ≡ length before
    → parameters_from fuel content idx params ≡ returns (read_from fuel s params)
unfolding parameters_from read_from
parameters_from-read zero content before s idx params h e k = ground (arith, h)
parameters_from-read (suc fuel) content before s idx params h e k =
    let (round, run, agrees) = next_parameter-IsRead content before s idx e k in
    rw run (
      next_round-read content (length s) (parameters_from fuel content) (read_from fuel)
        (λ b after next ps small e_after e_next.
          parameters_from-read fuel content b after next ps (omega (arith, h, small)) e_after
            e_next)
        (read_from-empty fuel) params round (read_parameter s) agrees)

-- On every text, parseParameters ends, slices nothing out of range, and returns what the text reads
-- as when it is cut at its tags.
pub parse_parameters-read :
    (content : Bytes) → parse_parameters content ≡ returns (read_parameters content)
unfolding parse_parameters read_parameters
parse_parameters-read content =
    parameters_from-read (suc (length content)) content [] content 0 [] (omega arith) refl refl
