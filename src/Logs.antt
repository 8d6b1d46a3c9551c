-- ===== src/Logs.antt =====
-- pkg/stats/vllm_log_parser.go. The four patterns of package regexp are written out: (?i) compares
-- letters without regard to case, \s is one of five characters, \d an ASCII digit, and the leftmost
-- match is taken. Every repetition is followed by what it cannot match itself, so it takes all it can.
pub mod Blocks
pub mod Captured
use vllm_chill.Prelude.{
  ℕ, zero, suc, ◌+◌, ◌-◌, Bytes, codes, has_prefix, same, atoi, is_digit, Bool, true, false, ◌&&◌,
  ◌||◌, leb, ◌==◌, Option, none, some, List, [], ◌∷◌, ℤ, pos, less_int, if◌then◌else◌, drop, length,
}
use vllm_chill.Gpu.Nvml.{Floats}

abbrev pub is_space : ℕ → Bool
is_space c = c == 9 || (c == 10 || (c == 12 || (c == 13 || c == 32)))

abbrev pub is_digit_or_dot : ℕ → Bool
is_digit_or_dot c = is_digit c || c == b'.'

abbrev pub lower : ℕ → ℕ
lower c = if leb b'A' c && leb c b'Z' then c + 32 else c

abbrev pub upper : ℕ → ℕ
upper c = if leb b'a' c && leb c b'z' then c - 32 else c

-- The characters beyond ASCII that fold to a letter of ASCII: the Kelvin sign to k, the long s to s.
abbrev pub fold_beyond : ℕ → Bytes → Option Bytes
fold_beyond c s =
    if c == b'k' && has_prefix s (0xE2 ∷ 0x84 ∷ 0xAA ∷ [])
    then some (drop 3 s)
    else if c == b's' && has_prefix s (0xC5 ∷ 0xBF ∷ [])
    then some (drop 2 s)
    else none

-- One character of a pattern, given in lower case; what follows the match.
unfoldable pub match_char : ℕ → Bytes → Option Bytes
unfolding has_prefix
match_char c [] = none
match_char c (d ∷ s) = if lower d == c then some s else fold_beyond c (d ∷ s)

abbrev pub and_then {ℓ κ} : {A : Type ℓ} {B : Type κ} → Option A → (A → Option B) → Option B
and_then none f = none
and_then (some a) f = f a

unfoldable pub match_text : Bytes → Bytes → Option Bytes
unfolding match_char
match_text [] s = some s
match_text (c ∷ p) s = and_then (match_char c s) (match_text p)

-- the longest run of such characters, and what follows it
unfoldable pub span : (ℕ → Bool) → Bytes → Bytes × Bytes
span test [] = ([], [])
span test (c ∷ s) = let (run, rest) = span test s in if test c then (c ∷ run, rest) else ([], c ∷ s)

-- a run of at least one
abbrev pub some_run : Bytes × Bytes → Option (Bytes × Bytes)
some_run ([], rest) = none
some_run (c ∷ run, rest) = some (c ∷ run, rest)

unfoldable pub match_run : (ℕ → Bool) → Bytes → Option (Bytes × Bytes)
unfolding span
match_run test s = some_run (span test s)

-- The leftmost match of a pattern that is tried at each place.
unfoldable pub find_match {ℓ} : {A : Type ℓ} → (Bytes → Option A) → Bytes → Option A
find_match try [] = try []
find_match try (c ∷ s) =
    let later = find_match try s in elim (try (c ∷ s)) [ none ↦ later | some a ↦ some a ]

-- A label, white space, and digits: blockSizePattern, numGPUBlocksPattern and numCPUBlocksPattern.
unfoldable pub match_number : Bytes → Bytes → Option Bytes
unfolding match_text match_run
match_number label s = and_then (match_text label s) λ after.
    and_then (match_run is_space after)
      λ spaced. and_then (match_run is_digit spaced.1) λ found. some found.0

-- GiB or MiB, as it is written
abbrev pub match_unit : Bytes → Option Bytes
match_unit [] = none
match_unit (a ∷ []) = none
match_unit (a ∷ b ∷ []) = none
match_unit (a ∷ b ∷ c ∷ s) =
    if (lower a == b'g' || lower a == b'm') && (lower b == b'i' && lower c == b'b')
    then some (a ∷ b ∷ c ∷ [])
    else none

-- kvCacheMemoryPattern: the number and the unit
unfoldable pub match_memory : Bytes → Option (Bytes × Bytes)
unfolding match_text match_run
match_memory s = and_then (match_text (codes "available kv cache memory:") s) λ after.
    and_then (match_run is_space after) λ spaced.
      and_then (match_run is_digit_or_dot spaced.1) λ number.
        and_then (match_run is_space number.1)
          λ spaced'. and_then (match_unit spaced'.1) λ unit. some (number.0, unit)

-- Takes the number of a match, if it is an int; the field stays 0 otherwise.
unfoldable pub number_of : Option Bytes → ℤ
unfolding atoi
number_of none = pos 0
number_of (some s) = elim (atoi s) [ none ↦ pos 0 | some z ↦ z ]

abbrev pub block_size_label : Bytes
block_size_label = codes "block size:"

abbrev pub gpu_blocks_label : Bytes
gpu_blocks_label = codes "# gpu blocks:"

abbrev pub cpu_blocks_label : Bytes
cpu_blocks_label = codes "# cpu blocks:"

module _ (floats : Floats) where
  open floats use {Float, from_int, divide, multiply}

  -- KVCacheInfo
  pub record KvCacheInfo : Type 0 where
    pub available_memory_gib : Float
    pub available_memory_mib : Float
    pub block_size : ℤ
    pub num_gpu_blocks : ℤ
    pub num_cpu_blocks : ℤ

  -- strconv.ParseFloat, with `none` for an error
  module _ (parse_float : Bytes → Option Float) where
    abbrev no_memory : Float × Float
    no_memory = (from_int (pos 0), from_int (pos 0))

    -- the sizes in GiB and in MiB
    unfoldable pub memory_in : Bytes → Float → Float × Float
    unfolding same
    memory_in unit value =
        if same unit (codes "GIB")
        then (value, multiply value (from_int (pos 1024)))
        else if same unit (codes "MIB")
        then (divide value (from_int (pos 1024)), value)
        else no_memory

    abbrev upper_unit : Bytes → Bytes
    upper_unit [] = []
    upper_unit (c ∷ s) = upper c ∷ upper_unit s

    unfoldable pub memory_of : Option (Bytes × Bytes) → Float × Float
    unfolding memory_in
    memory_of none = no_memory
    memory_of (some (number, unit)) = elim (parse_float number) [
      | none ↦ no_memory
      | some value ↦ memory_in (upper_unit unit) value
    ]

    -- ParseKVCacheInfo
    unfoldable pub parse_kv_cache_info : Bytes → KvCacheInfo
    unfolding memory_of find_match match_number match_memory number_of
    parse_kv_cache_info logs =
        let memory = memory_of (find_match match_memory logs) in
        record {
          available_memory_gib = memory.0;
          available_memory_mib = memory.1;
          block_size = number_of (find_match (match_number block_size_label) logs);
          num_gpu_blocks = number_of (find_match (match_number gpu_blocks_label) logs);
          num_cpu_blocks = number_of (find_match (match_number cpu_blocks_label) logs);
        }

  -- IsValid; the first argument compares two numbers.
  unfoldable pub is_valid : (Float → Float → Bool) → KvCacheInfo → Bool
  is_valid less i =
      less (from_int (pos 0)) i.available_memory_gib || less_int (pos 0) i.num_gpu_blocks
