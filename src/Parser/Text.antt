-- ===== src/Parser/Text.antt =====
-- The functions of package `strings` that pkg/parser calls.
use mathlib.Core.Bool.{◌&&◌, ◌||◌}
use vllm_chill.Prelude.{
  ℕ, zero, suc, ◌+◌, ◌-◌, Bytes, index, has_prefix, Bool, true, false, Option, none, some, [], ◌∷◌,
  ◌++◌, reverse, length, take, drop, leb, ◌==◌, if◌then◌else◌,
}

abbrev pub is_ascii_space : ℕ → Bool
is_ascii_space a = leb 9 a && leb a 13 || a == 32

abbrev pub is_space_of_two : ℕ → ℕ → Bool
is_space_of_two a b = a == 0xC2 && (b == 0x85 || b == 0xA0)

abbrev pub is_space_of_three : ℕ → ℕ → ℕ → Bool
is_space_of_three a b c =
    a == 0xE1 && (b == 0x9A && c == 0x80)
    || (a == 0xE2
          && (b == 0x80 && (leb 0x80 c && leb c 0x8A || (c == 0xA8 || (c == 0xA9 || c == 0xAF))))
        || (a == 0xE2 && (b == 0x81 && c == 0x9F) || a == 0xE3 && (b == 0x80 && c == 0x80)))

-- The number of bytes of the white space character (unicode.IsSpace, in UTF-8) at the front, 0 if
-- there is none.
unfoldable pub space_at : Bytes → ℕ
space_at [] = 0
space_at (a ∷ []) = if is_ascii_space a then 1 else 0
space_at (a ∷ b ∷ []) = if is_ascii_space a then 1 else if is_space_of_two a b then 2 else 0
space_at (a ∷ b ∷ c ∷ s) =
    if is_ascii_space a
    then 1
    else if is_space_of_two a b
    then 2
    else if is_space_of_three a b c
    then 3
    else 0

-- The same for the last character of a string, given from its end.
unfoldable pub space_before : Bytes → ℕ
space_before [] = 0
space_before (a ∷ []) = if is_ascii_space a then 1 else 0
space_before (b ∷ a ∷ []) = if is_ascii_space b then 1 else if is_space_of_two a b then 2 else 0
space_before (c ∷ b ∷ a ∷ s) =
    if is_ascii_space c
    then 1
    else if is_space_of_two b c
    then 2
    else if is_space_of_three a b c
    then 3
    else 0

-- Leaves out bytes as long as `space` finds white space; `left` bytes are still to be left out.
unfoldable pub skip_space : (Bytes → ℕ) → ℕ → Bytes → Bytes
skip_space space left [] = []
skip_space space (suc left) (c ∷ s) = skip_space space left s
skip_space space zero (c ∷ s) = elim (space (c ∷ s)) [
  | zero ↦ c ∷ s
  | suc more ↦ skip_space space more s
]

-- strings.TrimSpace
unfoldable pub trim_space : Bytes → Bytes
unfolding skip_space
trim_space s = reverse (skip_space space_before 0 (reverse (skip_space space_at 0 s)))

-- strings.LastIndex of one byte
unfoldable pub last_index : ℕ → Bytes → Option ℕ
last_index b [] = none
last_index b (c ∷ s) = elim (last_index b s) [
  | some i ↦ some (suc i)
  | none ↦ if c == b then some 0 else none
]

-- strings.Replace(s, old, "", 1)
unfoldable pub remove_first : Bytes → Bytes → Bytes
unfolding index
remove_first old s = elim (index s old) [ none ↦ s | some i ↦ take i s ++ drop (i + length old) s ]

-- Replaces from the front; `left` bytes of the last find are still to be left out.
unfoldable pub replace_from : Bytes → Bytes → ℕ → Bytes → Bytes
unfolding has_prefix
replace_from old new left [] = []
replace_from old new (suc left) (c ∷ s) = replace_from old new left s
replace_from old new zero (c ∷ s) = elim (has_prefix (c ∷ s) old) [
  | true ↦ new ++ replace_from old new (length old - 1) s
  | false ↦ c ∷ replace_from old new 0 s
]

-- strings.ReplaceAll, where `old` is not empty
unfoldable pub replace_all : Bytes → Bytes → Bytes → Bytes
unfolding replace_from
replace_all old new s = replace_from old new 0 s
