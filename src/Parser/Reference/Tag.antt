-- ===== src/Parser/Reference/Tag.antt =====
-- A parameter's tag, and the loop of parseParameters, against the reference.
use vllm_chill.Prelude.{
  ℕ, suc, ◌+◌, ◌≤◌, Bytes, codes, index, has_prefix, none, some, ◌++◌, length, ltb, if◌then◌else◌,
  length-append, append_assoc, arith, ◌≡◌, refl, sym, ◌∙◌, ap, inl, inr,
}
use vllm_chill.Parser.Run.{Run, slice-of, slice_from-of, slice-within}
use vllm_chill.Parser.Text.{trim_space}
use vllm_chill.Parser.Cut.{cut, view, inside, regroup}
use vllm_chill.Parser.Parameters.{
  Round, stop, found, value_at, parameter_at, after_start, from_start, next_parameter,
}
use vllm_chill.Parser.Reference.{
  Reading, nothing, parameter, read_value, read_name, read_tag, read_parameter,
}
use vllm_chill.Parser.Reference.Value.{IsRead, closed_value-IsRead, open_value-IsRead}

value_at-IsRead :
    (content name head rest : Bytes) (value_start : ℕ)
    → content ≡ head ++ rest
    → value_start ≡ length head
    → IsRead content
        (suc (length rest))
        (value_at content name value_start
          (index rest (codes "</parameter"))
          (index rest (codes "<")))
        (read_value name rest (cut (codes "</parameter") rest))
unfolding value_at read_value
value_at-IsRead content name head rest value_start e h = elim (view (codes "</parameter") rest) [
  | inl (i, k) ↦ rw (h, i, k) (open_value-IsRead content name head rest e)
  | inr (value, after, (i, k, split)) ↦
      rw (h, i, k) (closed_value-IsRead content name head value rest after e split)
]

parameter_at-IsRead :
    (content before name rest : Bytes) (param_start param_end : ℕ)
    → content ≡ before ++ (codes "<parameter=" ++ (name ++ (codes ">" ++ rest)))
    → param_start ≡ length before
    → param_end ≡ length before + 11 + length name
    → IsRead content
        (suc (length rest))
        (parameter_at content param_start param_end)
        (read_value (trim_space name) rest (cut (codes "</parameter") rest))
unfolding parameter_at
parameter_at-IsRead content before name rest param_start param_end e hs he =
    let tag = before ++ codes "<parameter=" in
    let head = tag ++ name ++ codes ">" in
    let e_tag = e ∙ sym (append_assoc before (codes "<parameter=") (name ++ (codes ">" ++ rest))) in
    let e_head = e_tag ∙ regroup tag name (codes ">") rest in
    let size = length-append before (codes "<parameter=") in
    let start : param_end + 1 ≡ length head =
      omega (arith, he, size, length-append tag name, length-append (tag ++ name) (codes ">")) in
    let all_of_it = ap length e_head ∙ length-append head rest in
    rw
      (
        slice-of content tag name (codes ">" ++ rest) (param_start + 11) param_end e_tag
            (omega (arith, size, hs)) (omega (arith, size, he)),
        slice-within content (param_end + 1)
            (if ltb (length content) (param_end + 50) then length content else param_end + 50)
            (ground (arith, start, all_of_it)) (ground arith),
        slice_from-of content head rest (param_end + 1) e_head start,
      )
      (value_at-IsRead content (trim_space name) head rest (param_end + 1) e_head start)

weaken :
    (content : Bytes) (run : Run Round) (reading : Reading) (size larger : ℕ)
    → size ≤ larger
    → IsRead content size run reading
    → IsRead content larger run reading
weaken content run nothing size larger h (stop, e, unit) = (stop, e, unit)
weaken content run (parameter n v after) size larger h
      (found name value next ends, e, (p, q, small, r, s)) =
    (found name value next ends, e, (p, q, omega (arith, small, h), r, s))
weaken content run nothing size larger h (found name value next ends, e, bad) = ground (arith, bad)
weaken content run (parameter n v after) size larger h (stop, e, bad) = ground (arith, bad)

-- The opening tag holds no end of a tag.
index-open_none :
    (q : Bytes) → index q (codes ">") ≡ none → index (codes "<parameter=" ++ q) (codes ">") ≡ none
unfolding index has_prefix
index-open_none q h = rw h refl

index-open_some :
    (q : Bytes) (i : ℕ)
    → index q (codes ">") ≡ some i
    → index (codes "<parameter=" ++ q) (codes ">") ≡ some (11 + i)
unfolding index has_prefix
index-open_some q i h = rw h (ap some (omega arith))

after_start-IsRead :
    (content before q : Bytes) (param_start : ℕ)
    → content ≡ before ++ (codes "<parameter=" ++ q)
    → param_start ≡ length before
    → IsRead content
        (suc (length q))
        (after_start content param_start (index (codes "<parameter=" ++ q) (codes ">")))
        (read_name (cut (codes ">") q))
unfolding after_start read_name
after_start-IsRead content before q param_start e h = elim (view (codes ">") q) [
  | inl (i, k) ↦ rw (index-open_none q i, k) (stop, refl, tt)
  | inr (name, rest, (i, k, split)) ↦
      rw (index-open_some q (length name) i, k)
        (weaken content (parameter_at content param_start (11 + length name + param_start))
          (read_value (trim_space name) rest (cut (codes "</parameter") rest)) (suc (length rest))
          (suc (length q)) (omega (arith, ap length split, length-append name (codes ">" ++ rest)))
          (parameter_at-IsRead content before name rest param_start (11 + length name + param_start)
            (inside before e (ap (λ t. codes "<parameter=" ++ t) split)) h (omega (arith, h))))
]

pub next_parameter-IsRead :
    (content before s : Bytes) (idx : ℕ)
    → content ≡ before ++ s
    → idx ≡ length before
    → IsRead content (length s) (next_parameter content idx) (read_parameter s)
unfolding next_parameter from_start read_parameter read_tag
next_parameter-IsRead content before s idx e h = elim (view (codes "<parameter=") s) [
  | inl (i, k) ↦ rw (slice_from-of content before s idx e h, i, k) (stop, refl, tt)
  | inr (p, q, (i, k, split)) ↦
      let whole = inside before e split ∙ sym (append_assoc before p (codes "<parameter=" ++ q)) in
      let start : length p + idx ≡ length (before ++ p) =
        omega (arith, h, length-append before p) in
      rw
        (
          slice_from-of content before s idx e h,
          i,
          k,
          slice_from-of content (before ++ p) (codes "<parameter=" ++ q) (length p + idx) whole
              start,
        )
        (weaken content
          (after_start content (length p + idx) (index (codes "<parameter=" ++ q) (codes ">")))
          (read_name (cut (codes ">") q)) (suc (length q)) (length s)
          (omega (arith, ap length split, length-append p (codes "<parameter=" ++ q)))
          (after_start-IsRead content (before ++ p) q (length p + idx) whole start))
]
