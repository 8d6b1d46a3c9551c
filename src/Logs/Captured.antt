-- ===== src/Logs/Captured.antt =====
-- What the patterns for numbers capture in every log that the parser of vLLM's logs reads.
use vllm_chill.Prelude.{
  ℕ, ◌<◌, ◌^◌, Bytes, codes, IsDigit, atoi-digits, is_digit, Bool, true, Bool-cases, All, Option,
  none, some, [], ◌∷◌, ℤ, pos, arith, ◌≡◌, ◌≢◌, refl, sym, subst, inl, inr, value_after, ltb,
  if◌then◌else◌,
}
use vllm_chill.Gpu.Nvml.{Floats}
use vllm_chill.Logs.{
  span, some_run, match_run, match_text, match_number, find_match, number_of, is_space, and_then,
  block_size_label, gpu_blocks_label, cpu_blocks_label, parse_kv_cache_info,
}

span-All : (test : ℕ → Bool) (s : Bytes) → All (λ c. test c ≡ true) (span test s).0
unfolding span
span-All test [] = tt
span-All test (c ∷ s) = elim (Bool-cases (test c)) [
  | inl pass ↦ rw pass (pass, span-All test s)
  | inr stop ↦ rw stop tt
]

passing_digits : (s : Bytes) → All (λ c. is_digit c ≡ true) s → All IsDigit s
passing_digits [] _ = tt
passing_digits (c ∷ s) (d, ds) = (ground arith, passing_digits s ds)

-- What a number pattern captures are digits, at least one.
abbrev Captures : Option Bytes → Type 0
Captures none = Unit {0}
Captures (some s) = All IsDigit s × (s ≢ [])

run-Captures :
    (p : Bytes × Bytes) → All IsDigit p.0 → Captures (and_then (some_run p) λ found. some found.0)
run-Captures ([], rest) h = tt
run-Captures (c ∷ run, rest) h = (h, λ e. cc)

match_number-Captures : (label s : Bytes) → Captures (match_number label s)
unfolding match_number match_run
match_number-Captures label s = after_label (match_text label s)
  where
    after_space :
        (o : Option (Bytes × Bytes))
        → Captures
            (and_then o λ spaced. and_then (match_run is_digit spaced.1) λ found. some found.0)
    after_space none = tt
    after_space (some spaced) =
        run-Captures (span is_digit spaced.1)
          (passing_digits (span is_digit spaced.1).0 (span-All is_digit spaced.1))

    after_label :
        (o : Option Bytes)
        → Captures (
            and_then o λ after.
              and_then
                (match_run is_space after)
                λ spaced. and_then (match_run is_digit spaced.1) λ found. some found.0)
    after_label none = tt
    after_label (some after) = after_space (match_run is_space after)

or_later :
    (o later : Option Bytes)
    → Captures o
    → Captures later
    → Captures (elim o [ none ↦ later | some a ↦ some a ])
or_later none later _ h = h
or_later (some a) later h _ = h

find_match-Captures : (label s : Bytes) → Captures (find_match (match_number label) s)
unfolding find_match
find_match-Captures label [] = match_number-Captures label []
find_match-Captures label (c ∷ s) =
    or_later (match_number label (c ∷ s)) _ (match_number-Captures label (c ∷ s))
      (find_match-Captures label s)

-- A number that is not negative and fits in an int.
abbrev pub Fits : ℤ → Type 0
Fits z = (n : ℕ) × (z ≡ pos n) × (n < 2 ^ 63)

-- A number as an int: itself, or 0 where it is too large for one.
abbrev pub int_or_zero : ℕ → ℤ
int_or_zero n = if ltb n (2 ^ 63) then pos n else pos 0

-- The int is what a pattern captures: digits with that number, or 0 where there is no match.
abbrev pub IsCaptured : Option Bytes → ℤ → Type 0
IsCaptured none z = z ≡ pos 0
IsCaptured (some ds) z = All IsDigit ds × (z ≡ int_or_zero (value_after 0 ds))

-- The int fits, and is that of the first match of the pattern with the label.
abbrev pub IsRead : Bytes → Bytes → ℤ → Type 0
IsRead label logs z = Fits z × IsCaptured (find_match (match_number label) logs) z

number_of-value :
    (s : Bytes) → All IsDigit s → s ≢ [] → number_of (some s) ≡ int_or_zero (value_after 0 s)
unfolding number_of
number_of-value s ds h = elim (Bool-cases (ltb (value_after 0 s) (2 ^ 63))) [
  | inl small ↦ rw (number_of, atoi-digits s ds h, small) refl
  | inr large ↦ rw (number_of, atoi-digits s ds h, large) refl
]

int_or_zero-Fits : (n : ℕ) → Fits (int_or_zero n)
int_or_zero-Fits n = elim (Bool-cases (ltb n (2 ^ 63))) [
  | inl small ↦ (n, rw small refl, ground (arith, small))
  | inr large ↦ (0, rw large refl, omega arith)
]

captured : (o : Option Bytes) → Captures o → Fits (number_of o) × IsCaptured o (number_of o)
captured none h = unfold number_of in ((0, refl, omega arith), refl)
captured (some s) (ds, some_digit) =
    let value = number_of-value s ds some_digit in
    (subst Fits (sym value) (int_or_zero-Fits (value_after 0 s)), (ds, value))

module _ (floats : Floats) (parse_float : Bytes → Option floats.Float) where
  -- On every log, the block size and the numbers of blocks are read by their own patterns: each is
  -- the number that the first match of its pattern captures, and 0 where there is none or where that
  -- number is too large for an int. None is negative, and each is below 2^63.
  pub parse_kv_cache_info-Fits :
      (logs : Bytes)
      → let i = parse_kv_cache_info floats parse_float logs in
        IsRead (codes "block size:") logs i.block_size
        × IsRead (codes "# gpu blocks:") logs i.num_gpu_blocks
        × IsRead (codes "# cpu blocks:") logs i.num_cpu_blocks
  unfolding parse_kv_cache_info
  parse_kv_cache_info-Fits logs = (
    captured _ (find_match-Captures block_size_label logs),
    captured _ (find_match-Captures gpu_blocks_label logs),
    captured _ (find_match-Captures cpu_blocks_label logs),
  )
