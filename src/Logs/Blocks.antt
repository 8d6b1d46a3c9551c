-- ===== src/Logs/Blocks.antt =====
-- The numbers of blocks that the parser of vLLM's logs reads.
use vllm_chill.Prelude.{
  ℕ, ◌<◌, ◌^◌, Bytes, codes, to_decimal, to_decimal-IsDigit, to_decimal-ne, IsDigit,
  atoi-to_decimal, is_digit, Bool, true, false, All, any, ◌==◌, Option, none, some, [], ◌∷◌, ◌++◌,
  pos, arith, ◌≡◌, ◌≢◌, refl, ◌∙◌,
}
use vllm_chill.Gpu.Nvml.{Floats}
use vllm_chill.Logs.{
  span, some_run, match_run, match_char, match_text, match_number, find_match, number_of, is_space,
  gpu_blocks_label, KvCacheInfo, parse_kv_cache_info, is_valid,
}

-- The first character of a text, if it has one, does not pass.
abbrev pub Stops : (ℕ → Bool) → Bytes → Type 0
Stops test [] = Unit {0}
Stops test (c ∷ s) = test c ≡ false

span-append :
    (test : ℕ → Bool) (run rest : Bytes)
    → All (λ c. test c ≡ true) run
    → Stops test rest
    → span test (run ++ rest) ≡ (run, rest)
unfolding span
span-append test [] [] _ stop = refl
span-append test [] (c ∷ s) _ stop = rw stop refl
span-append test (c ∷ run) rest (pass, others) stop =
    rw (pass, span-append test run rest others stop) refl

digits_pass : (s : Bytes) → All IsDigit s → All (λ c. is_digit c ≡ true) s
digits_pass [] _ = tt
digits_pass (c ∷ s) (d, ds) = (ground arith, digits_pass s ds)

-- the number as vLLM logs it, with what follows it
abbrev pub gpu_blocks_line : ℕ → Bytes → Bytes
gpu_blocks_line n rest = codes "# GPU blocks: " ++ (to_decimal n ++ rest)

digits_no_space : (ds rest : Bytes) → All IsDigit ds → ds ≢ [] → Stops is_space (ds ++ rest)
digits_no_space [] rest _ h = absurd (h refl)
digits_no_space (d ∷ ds) rest (digit, _) h = ground arith

some_run-ne : (ds rest : Bytes) → ds ≢ [] → some_run (ds, rest) ≡ some (ds, rest)
some_run-ne [] rest h = absurd (h refl)
some_run-ne (d ∷ ds) rest h = refl

-- The text of a number, before something that is no digit.
number_at :
    (n : ℕ) (rest : Bytes)
    → Stops is_digit rest
    → match_number gpu_blocks_label (gpu_blocks_line n rest) ≡ some (to_decimal n)
unfolding match_number match_run
number_at n rest stop =
    let ds = to_decimal n in
    let digits = to_decimal-IsDigit n in
    let some_digit = to_decimal-ne n in
    rw
      (
        span-append is_space [] (ds ++ rest) tt (digits_no_space ds rest digits some_digit),
        match_run,
        span-append is_digit ds rest (digits_pass ds digits) stop,
        some_run-ne ds rest some_digit,
      )
      refl

not_hash : (c : ℕ) (s : Bytes) → c ≢ b'#' → match_char b'#' (c ∷ s) ≡ none
unfolding match_char
not_hash c s h = ground arith

not_at : (c : ℕ) (s : Bytes) → c ≢ b'#' → match_number gpu_blocks_label (c ∷ s) ≡ none
unfolding match_number
not_at c s h = rw (match_number, match_text, not_hash c s h) refl

skip_noise :
    (noise s : Bytes)
    → any (λ c. c == b'#') noise ≡ false
    → find_match (match_number gpu_blocks_label) (noise ++ s)
      ≡ find_match (match_number gpu_blocks_label) s
unfolding find_match
skip_noise [] s h = refl
skip_noise (c ∷ noise) s h =
    rw (not_at c (noise ++ s) (ground arith), find_match) (skip_noise noise s (ground arith))

find_number :
    (noise rest : Bytes) (n : ℕ)
    → any (λ c. c == b'#') noise ≡ false
    → Stops is_digit rest
    → find_match (match_number gpu_blocks_label) (noise ++ gpu_blocks_line n rest)
      ≡ some (to_decimal n)
unfolding find_match
find_number noise rest n quiet stop =
    skip_noise noise (gpu_blocks_line n rest) quiet ∙ rw (number_at n rest stop, find_match) refl

number_is : (n : ℕ) {o : Option Bytes} → n < 2 ^ 63 → o ≡ some (to_decimal n) → number_of o ≡ pos n
unfolding number_of
number_is n fits found = rw (found, number_of, atoi-to_decimal n fits) refl

module _ (floats : Floats) (parse_float : Bytes → Option floats.Float) where
  valid_if :
      (less : floats.Float → floats.Float → Bool) (i : KvCacheInfo floats) (n : ℕ)
      → i.num_gpu_blocks ≡ pos n
      → 0 < n
      → is_valid floats less i ≡ true
  unfolding is_valid
  valid_if less i n read positive = ground arith

  -- In a log whose first '#' begins the text "# GPU blocks: " with a number that fits in an int, and
  -- no digit behind it, that number is read; and if it is not 0, the information is valid.
  pub logged_blocks_are_read :
      (less : floats.Float → floats.Float → Bool) (noise rest : Bytes) (n : ℕ)
      → any (λ c. c == b'#') noise ≡ false
      → Stops is_digit rest
      → n < 2 ^ 63
      → let i = parse_kv_cache_info floats parse_float (noise ++ gpu_blocks_line n rest) in
        (i.num_gpu_blocks ≡ pos n) × (0 < n → is_valid floats less i ≡ true)
  unfolding parse_kv_cache_info
  logged_blocks_are_read less noise rest n quiet stop fits =
      let read = number_is n fits (find_number noise rest n quiet stop) in
      (read, λ positive. valid_if less _ n read positive)
