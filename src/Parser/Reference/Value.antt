-- ===== src/Parser/Reference/Value.antt =====
-- A parameter's value: the indices of parseParameters against the cuts of the reference.
use vllm_chill.Prelude.{
  ℕ, suc, ◌+◌, ◌<◌, Bytes, codes, index, has_prefix, trim_prefix, true, false, [], ◌∷◌, ◌++◌,
  length, ◌==◌, if◌then◌else◌, length-append, append_assoc, append-nil, length-drop, arith, ◌≡◌,
  refl, sym, ◌∙◌, ap, Bool-cases, inl, inr,
}
use vllm_chill.Parser.Run.{Run, returns, slice-of}
use vllm_chill.Parser.Text.{trim_space}
use vllm_chill.Parser.Cut.{cut, view, inside, regroup}
use vllm_chill.Parser.Parameters.{
  Round, stop, found, has_byte_at, closing_length, closed_value, open_value, open_end,
}
use vllm_chill.Parser.Reference.{Reading, nothing, parameter, read_open}

-- A round of the code gives what the reference reads: it stops where that finds nothing, and else
-- goes on at the text that is left, which is shorter than `size`.
abbrev pub Agrees : Bytes → ℕ → Round → Reading → Type 0
Agrees content size stop nothing = Unit
Agrees content size (found name value next ends) (parameter name_read value_read after) =
    (name ≡ name_read)
    × (value ≡ value_read)
    × (length after < size)
    × (ends ≡ true → after ≡ [])
    × ((before : Bytes) × (content ≡ before ++ after) × (next ≡ length before))
Agrees content size stop (parameter n v after) = false ≡ true
Agrees content size (found n v next ends) nothing = false ≡ true

abbrev pub IsRead : Bytes → ℕ → Run Round → Reading → Type 0
IsRead content size run reading =
    (round : Round) × (run ≡ returns round) × Agrees content size round reading

has_byte_at-append :
    (b : ℕ) (x y : Bytes) → has_byte_at b (length x) (x ++ y) ≡ has_prefix y (b ∷ [])
unfolding has_prefix
has_byte_at-append b [] [] = refl
has_byte_at-append b [] (c ∷ y) = ground arith
has_byte_at-append b (c ∷ x) y = has_byte_at-append b x y

-- The closing tag, complete or not, in front of a text.
tag_before :
    (after : Bytes)
    → (tag : Bytes) × (codes "</parameter" ++ after ≡ tag ++ trim_prefix after (codes ">"))
      × ((if has_prefix after (codes ">") then 12 else 11) ≡ length tag)
unfolding trim_prefix has_prefix
tag_before [] = (codes "</parameter", refl, refl)
tag_before (c ∷ after) = elim (Bool-cases (c == b'>')) [
  | inl h ↦ (codes "</parameter>", ground (arith, h), ground (arith, h))
  | inr h ↦ (codes "</parameter", ground (arith, h), ground (arith, h))
]

closing_length-append :
    (content x after : Bytes) (n : ℕ)
    → content ≡ x ++ after
    → n ≡ length x
    → closing_length content n ≡ (if has_prefix after (codes ">") then 12 else 11)
unfolding closing_length
closing_length-append content x after n e h = rw (e, h, has_byte_at-append b'>' x after) refl

length-trim_prefix : (s t : Bytes) → length (trim_prefix s t) < suc (length s)
unfolding trim_prefix
length-trim_prefix s t = ground (arith, length-drop (length t) s)

-- A value with a closing tag.
pub closed_value-IsRead :
    (content name head value rest after : Bytes)
    → content ≡ head ++ rest
    → rest ≡ value ++ (codes "</parameter" ++ after)
    → IsRead content
        (suc (length rest))
        (closed_value content name (length head) (length head + length value))
        (parameter name (trim_space value) (trim_prefix after (codes ">")))
unfolding closed_value
closed_value-IsRead content name head value rest after e h =
    let (tag, split, size) = tag_before after in
    let end = length head + length value in
    let close = codes "</parameter" in
    let whole = inside head e h in
    (
      found name (trim_space value) (end + closing_length content (end + 11)) false,
      rw (slice-of content head value (close ++ after) (length head) end whole refl refl) refl,
      (
        refl,
        refl,
        omega (
          arith,
          length-trim_prefix after (codes ">"),
          ap length h,
          length-append value (close ++ after),
        ),
        (λ impossible. cc),
        (
          head ++ value ++ tag,
          inside head whole (ap (λ t. value ++ t) split)
              ∙ regroup head value tag (trim_prefix after (codes ">")),
          omega (
            arith,
            length-append (head ++ value) tag,
            length-append head value,
            size,
            closing_length-append content (head ++ value ++ close) after (end + 11)
                (whole ∙ regroup head value close after)
                (omega (arith, length-append (head ++ value) close, length-append head value)),
          ),
        ),
      ),
    )

-- A value that ends at the next tag, or with the text.
pub open_value-IsRead :
    (content name head rest : Bytes)
    → content ≡ head ++ rest
    → IsRead content
        (suc (length rest))
        (open_value content name
          (length head)
          (open_end content (length head) (index rest (codes "<"))))
        (read_open name rest (cut (codes "<") rest))
unfolding open_value open_end read_open
open_value-IsRead content name head rest e = elim (view (codes "<") rest) [
  | inl (i, k) ↦
      let all_of_it = ap length e ∙ length-append head rest in
      rw (i, k)
        (
          found name (trim_space rest) (length content) (length content == length content),
          rw
              (slice-of content head rest [] (length head) (length content)
                (inside head e (sym (append-nil rest))) refl all_of_it)
              refl,
          (refl, refl, omega arith, (λ h. refl), (content, sym (append-nil content), refl)),
        )
  | inr (value, after, (i, k, split)) ↦
      let end = length head + length value in
      rw (i, k)
        (
          found name (trim_space value) end (end == length content),
          rw
              (slice-of content head value (codes "<" ++ after) (length head) end
                (inside head e split) refl refl)
              refl,
          (
            refl,
            refl,
            omega (arith, ap length split, length-append value (codes "<" ++ after)),
            (λ h. ground (
              arith,
              h,
              ap length (inside head e split),
              length-append head (value ++ (codes "<" ++ after)),
              length-append value (codes "<" ++ after),
            )),
            (
              head ++ value,
              inside head e split ∙ sym (append_assoc head value (codes "<" ++ after)),
              sym (length-append head value),
            ),
          ),
        )
]
