-- ===== src/Parser/Run.antt =====
-- What a run of the parser comes to: a value, or the panic of a slice out of range, or, in the model
-- only, a loop that has used up its fuel.
use vllm_chill.Prelude.{
  ℕ, ◌+◌, ◌-◌, ◌≤◌, Bytes, ◌&&◌, ◌++◌, length, take, drop, leb, if◌then◌else◌, length-append,
  drop-length-append, take-length-append, arith, ◌≡◌,
}

pub data Run {ℓ} (A : Type ℓ) : Type ℓ where
  returns : A → Run A
  out_of_range : Run A
  out_of_fuel : Run A

infixl 5 ◌>>=◌
abbrev pub ◌>>=◌ {ℓ κ} : {A : Type ℓ} {B : Type κ} → Run A → (A → Run B) → Run B
returns a >>= f = f a
out_of_range >>= f = out_of_range
out_of_fuel >>= f = out_of_fuel

-- s[a:b]
unfoldable pub slice : ℕ → ℕ → Bytes → Run Bytes
slice a b s =
    if leb a b && leb b (length s) then returns (take (b - a) (drop a s)) else out_of_range

-- s[a:]
unfoldable pub slice_from : ℕ → Bytes → Run Bytes
slice_from a s = if leb a (length s) then returns (drop a s) else out_of_range

-- The part of a string between two others.
pub slice-part :
    (x y z : Bytes) (a b : ℕ)
    → a ≡ length x
    → b ≡ length x + length y
    → slice a b (x ++ (y ++ z)) ≡ returns y
unfolding slice
slice-part x y z a b ha hb = ground (
  arith,
  length-append x (y ++ z),
  length-append y z,
  drop-length-append x (y ++ z),
  take-length-append y z,
)

pub slice_from-part : (x y : Bytes) (a : ℕ) → a ≡ length x → slice_from a (x ++ y) ≡ returns y
unfolding slice_from
slice_from-part x y a h = ground (arith, length-append x y, drop-length-append x y)

pub slice-of :
    (s x y z : Bytes) (a b : ℕ)
    → s ≡ x ++ (y ++ z)
    → a ≡ length x
    → b ≡ length x + length y
    → slice a b s ≡ returns y
slice-of s x y z a b e ha hb = rw e (slice-part x y z a b ha hb)

pub slice_from-of : (s x y : Bytes) (a : ℕ) → s ≡ x ++ y → a ≡ length x → slice_from a s ≡ returns y
slice_from-of s x y a e h = rw e (slice_from-part x y a h)

-- A slice within the bounds does not panic.
pub slice-within :
    (s : Bytes) (a b : ℕ) → a ≤ b → b ≤ length s → slice a b s ≡ returns (take (b - a) (drop a s))
unfolding slice
slice-within s a b h k = ground arith

pub slice_from-within : (s : Bytes) (a : ℕ) → a ≤ length s → slice_from a s ≡ returns (drop a s)
unfolding slice_from
slice_from-within s a h = ground arith

-- The run returns, with a value of that kind.
abbrev pub Returns {ℓ} : {A : Type ℓ} → (A → Type 0) → Run A → Type ℓ
Returns {A = A} P run = (a : A) × (run ≡ returns a) × P a

pub Returns-bind {ℓ κ} :
    {A : Type ℓ} {B : Type κ} (P : A → Type 0) (Q : B → Type 0) (run : Run A) (f : A → Run B)
    → Returns P run
    → ((a : A) → P a → Returns Q (f a))
    → Returns Q (run >>= f)
Returns-bind P Q run f (a, e, p) next = rw e (next a p)
