-- ===== src/Parser/Legacy/Body.antt =====
-- One call of the legacy format: the indices of parseLegacyFormat against the cuts of the reference.
use vllm_chill.Prelude.{
  ℕ, suc, ◌+◌, Bytes, codes, index, contains, [], ◌++◌, length, length-append, append_assoc,
  append-nil, arith, ◌≡◌, refl, sym, ◌∙◌, ap, inl, inr,
}
use vllm_chill.Parser.Run.{returns, slice-of, slice_from-of}
use vllm_chill.Parser.Text.{trim_space, remove_first}
use vllm_chill.Parser.Call.{Packages}
use vllm_chill.Parser.Cut.{cut, view, inside, regroup}
use vllm_chill.Parser.Reference.Loop.{parse_parameters-read}
use vllm_chill.Parser.Legacy.{
  no_call, call, end_in, next_index, call_body, call_at, after_function, from_function, next_call,
}
use vllm_chill.Parser.Legacy.Reading.{
  body_arguments, read_body, read_function, read_start, read_call,
}
use vllm_chill.Parser.Legacy.Marks.{
  IsRead, weaken, index-end_none, index-end_some, contains-end_none, contains-end_some,
  index-name_none, index-name_some,
}

call_body-returns :
    (packages : Packages) (content name full head body tail : Bytes) (func_end tool_call_end : ℕ)
    → content ≡ head ++ (body ++ tail)
    → func_end + 1 ≡ length head
    → tool_call_end ≡ length head + length body
    → call_body packages content name full func_end tool_call_end
      ≡ returns (
          call
            (trim_space name)
            (body_arguments packages body)
            (next_index tool_call_end (contains full (codes "</tool_call>"))))
unfolding call_body body_arguments
call_body-returns packages content name full head body tail func_end tool_call_end e hs he =
    rw
      (
        slice-of content head body tail (func_end + 1) tool_call_end e hs he,
        parse_parameters-read (remove_first (codes "</function>") body),
      )
      refl

module _ (packages : Packages) (content before name rest : Bytes) (func_start func_end : ℕ)
    (e : content ≡ before ++ (codes "<function=" ++ (name ++ (codes ">" ++ rest))))
    (hs : func_start ≡ length before) (he : func_end ≡ length before + 10 + length name) where
  call_at-IsRead :
      IsRead content
        (suc (length rest))
        (call_at packages content func_start func_end)
        (read_body packages (trim_space name) rest (cut (codes "</tool_call>") rest))
  unfolding call_at end_in read_body next_index
  call_at-IsRead =
      let tag = before ++ codes "<function=" in
      let head = tag ++ name ++ codes ">" in
      let e_tag =
        e ∙ sym (append_assoc before (codes "<function=") (name ++ (codes ">" ++ rest))) in
      let e_end = e_tag ∙ sym (append_assoc tag name (codes ">" ++ rest)) in
      let e_head = e_end ∙ sym (append_assoc (tag ++ name) (codes ">") rest) in
      let size = length-append before (codes "<function=") in
      let at_end : func_end ≡ length (tag ++ name) =
        omega (arith, he, size, length-append tag name) in
      let at_head : func_end + 1 ≡ length head =
        omega (arith, at_end, length-append (tag ++ name) (codes ">")) in
      let name_slice =
        slice-of content tag name (codes ">" ++ rest) (func_start + 10) func_end e_tag
          (omega (arith, size, hs)) (omega (arith, size, he)) in
      let rest_slice =
        slice_from-of content (tag ++ name) (codes ">" ++ rest) func_end e_end at_end in
      let close = codes "</tool_call>" in
      elim (view close rest) [
        | inl (i, k) ↦
            rw (name_slice, rest_slice, index-end_none rest i, k)
              (
                call (trim_space name) (body_arguments packages rest)
                    (length (codes ">" ++ rest) + func_end),
                call_body-returns packages content name (codes ">" ++ rest) head rest [] func_end
                      (length (codes ">" ++ rest) + func_end)
                      (e_head ∙ ap (λ t. head ++ t) (sym (append-nil rest))) at_head
                      (omega (arith, at_head))
                    ∙ rw (contains-end_none rest i) refl,
                (
                  refl,
                  refl,
                  omega arith,
                  (
                    content,
                    sym (append-nil content),
                    omega (arith, at_head, ap length e_head, length-append head rest),
                  ),
                ),
              )
        | inr (body, after, (i, k, split)) ↦
            rw (name_slice, rest_slice, index-end_some rest (length body) i, k)
              (
                call (trim_space name) (body_arguments packages body)
                    (suc (length body) + func_end + 12),
                call_body-returns packages content name (codes ">" ++ rest) head body
                      (close ++ after) func_end (suc (length body) + func_end)
                      (e_head ∙ ap (λ t. head ++ t) split) at_head (omega (arith, at_head))
                    ∙ rw (contains-end_some rest (length body) i) refl,
                (
                  refl,
                  refl,
                  omega (arith, ap length split, length-append body (close ++ after)),
                  (
                    head ++ body ++ close,
                    e_head ∙ ap (λ t. head ++ t) split ∙ regroup head body close after,
                    omega (
                      arith,
                      at_head,
                      length-append head body,
                      length-append (head ++ body) close,
                    ),
                  ),
                ),
              )
      ]

after_function-IsRead :
    (packages : Packages) (content before q : Bytes) (func_start : ℕ)
    → content ≡ before ++ (codes "<function=" ++ q)
    → func_start ≡ length before
    → IsRead content
        (suc (length q))
        (after_function packages content func_start (index (codes "<function=" ++ q) (codes ">")))
        (read_function packages (cut (codes ">") q))
unfolding after_function read_function
after_function-IsRead packages content before q func_start e h = elim (view (codes ">") q) [
  | inl (i, k) ↦ rw (index-name_none q i, k) (no_call, refl, tt)
  | inr (name, rest, (i, k, split)) ↦
      let func_end = 10 + length name + func_start in
      rw (index-name_some q (length name) i, k)
        (weaken content (call_at packages content func_start func_end)
          (read_body packages (trim_space name) rest (cut (codes "</tool_call>") rest))
          (suc (length rest)) (suc (length q))
          (omega (arith, ap length split, length-append name (codes ">" ++ rest)))
          (call_at-IsRead packages content before name rest func_start func_end
            (inside before e (ap (λ t. codes "<function=" ++ t) split)) h (omega (arith, h))))
]

pub next_call-IsRead :
    (packages : Packages) (content before s : Bytes) (idx : ℕ)
    → content ≡ before ++ s
    → idx ≡ length before
    → IsRead content (length s) (next_call packages content idx) (read_call packages s)
unfolding next_call from_function read_call read_start
next_call-IsRead packages content before s idx e h = elim (view (codes "<function=") s) [
  | inl (i, k) ↦ rw (slice_from-of content before s idx e h, i, k) (no_call, refl, tt)
  | inr (p, q, (i, k, split)) ↦
      let full = codes "<function=" ++ q in
      let whole = inside before e split ∙ sym (append_assoc before p full) in
      let start : length p + idx ≡ length (before ++ p) =
        omega (arith, h, length-append before p) in
      rw
        (
          slice_from-of content before s idx e h,
          i,
          k,
          slice_from-of content (before ++ p) full (length p + idx) whole start,
        )
        (weaken content (after_function packages content (length p + idx) (index full (codes ">")))
          (read_function packages (cut (codes ">") q)) (suc (length q)) (length s)
          (omega (arith, ap length split, length-append p full))
          (after_function-IsRead packages content (before ++ p) q (length p + idx) whole start))
]
