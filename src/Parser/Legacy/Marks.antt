-- ===== src/Parser/Legacy/Marks.antt =====
-- What a round of parseLegacyFormat has to give, and the marks behind a tag.
use vllm_chill.Prelude.{
  ℕ, suc, ◌+◌, ◌<◌, ◌≤◌, Bytes, codes, index, contains, has_prefix, true, false, none, some, ◌++◌,
  length, arith, ◌≡◌, refl, ap,
}
use vllm_chill.Parser.Run.{Run, returns}
use vllm_chill.Parser.Legacy.{CallRound, no_call, call}
use vllm_chill.Parser.Legacy.Reading.{CallReading, nothing, reading}

-- A round of the code gives what the reference reads, and goes on at the text that is left.
abbrev pub Agrees : Bytes → ℕ → CallRound → CallReading → Type 0
Agrees content size no_call nothing = Unit
Agrees content size (call name arguments next) (reading name_read arguments_read after) =
    (name ≡ name_read)
    × (arguments ≡ arguments_read)
    × (length after < size)
    × ((before : Bytes) × (content ≡ before ++ after) × (next ≡ length before))
Agrees content size no_call (reading n a after) = false ≡ true
Agrees content size (call n a next) nothing = false ≡ true

abbrev pub IsRead : Bytes → ℕ → Run CallRound → CallReading → Type 0
IsRead content size run read =
    (round : CallRound) × (run ≡ returns round) × Agrees content size round read

pub weaken :
    (content : Bytes) (run : Run CallRound) (read : CallReading) (size larger : ℕ)
    → size ≤ larger
    → IsRead content size run read
    → IsRead content larger run read
weaken content run nothing size larger h (no_call, e, unit) = (no_call, e, unit)
weaken content run (reading n a after) size larger h
      (call name arguments next, e, (p, q, small, s)) =
    (call name arguments next, e, (p, q, omega (arith, small, h), s))
weaken content run nothing size larger h (call name arguments next, e, bad) = ground (arith, bad)
weaken content run (reading n a after) size larger h (no_call, e, bad) = ground (arith, bad)

contains-none : (s mark : Bytes) → index s mark ≡ none → contains s mark ≡ false
unfolding contains
contains-none s mark h = rw (contains, h) refl

contains-some : (s mark : Bytes) (i : ℕ) → index s mark ≡ some i → contains s mark ≡ true
unfolding contains
contains-some s mark i h = rw (contains, h) refl

-- The mark is not at the end of the function's tag, which the code's search starts with.
module _ (rest : Bytes) where
  pub index-end_none :
      index rest (codes "</tool_call>") ≡ none
      → index (codes ">" ++ rest) (codes "</tool_call>") ≡ none
  unfolding index has_prefix
  index-end_none h = rw h refl

  pub index-end_some :
      (i : ℕ)
      → index rest (codes "</tool_call>") ≡ some i
      → index (codes ">" ++ rest) (codes "</tool_call>") ≡ some (suc i)
  unfolding index has_prefix
  index-end_some i h = rw h refl

  pub contains-end_none :
      index rest (codes "</tool_call>") ≡ none
      → contains (codes ">" ++ rest) (codes "</tool_call>") ≡ false
  contains-end_none h = contains-none (codes ">" ++ rest) (codes "</tool_call>") (index-end_none h)

  pub contains-end_some :
      (i : ℕ)
      → index rest (codes "</tool_call>") ≡ some i
      → contains (codes ">" ++ rest) (codes "</tool_call>") ≡ true
  contains-end_some i h =
      contains-some (codes ">" ++ rest) (codes "</tool_call>") (suc i) (index-end_some i h)

  pub index-name_none :
      index rest (codes ">") ≡ none → index (codes "<function=" ++ rest) (codes ">") ≡ none
  unfolding index has_prefix
  index-name_none h = rw h refl

  pub index-name_some :
      (i : ℕ)
      → index rest (codes ">") ≡ some i
      → index (codes "<function=" ++ rest) (codes ">") ≡ some (10 + i)
  unfolding index has_prefix
  index-name_some i h = rw h (ap some (omega arith))
