-- ===== src/Kubernetes/Args/Items.antt =====
-- Command lines as lists of options: how argsToMap reads one back.
use vllm_chill.Prelude.{
  Bytes, codes, same, Assoc, lookup, insert, lookup-insert, Bool, true, false, Option, some, List,
  [], ◌∷◌, ◌≡◌, refl, All, arith, ◌==◌, if◌then◌else◌,
}
use vllm_chill.Kubernetes.Args.{args_loop}

-- An option with a value, or a flag alone.
pub data Item : Type 0 where
  pair : Bytes → Bytes → Item
  flag : Bytes → Item

abbrev pub starts_with_dash : Bytes → Bool
starts_with_dash [] = false
starts_with_dash (c ∷ s) = c == b'-'

-- Neither empty nor in the form of an option.
abbrev pub is_value : Bytes → Bool
is_value [] = false
is_value (c ∷ s) = if c == b'-' then false else true

abbrev pub Fits : Item → Type 0
Fits (pair k v) = (starts_with_dash k ≡ true) × (is_value v ≡ true)
Fits (flag k) = starts_with_dash k ≡ true

unfoldable pub render : List Item → List Bytes
render [] = []
render (pair k v ∷ is) = k ∷ v ∷ render is
render (flag k ∷ is) = k ∷ render is

-- The map that a reading from left to right leaves: a later option wins.
unfoldable pub record_all : List Item → Assoc Bytes → Assoc Bytes
record_all [] m = m
record_all (pair k v ∷ is) m = record_all is (insert k v m)
record_all (flag k ∷ is) m = record_all is (insert k (codes "true") m)

pair_step :
    (k v : Bytes) (rest : List Bytes) (m : Assoc Bytes)
    → starts_with_dash k ≡ true
    → is_value v ≡ true
    → args_loop (k ∷ v ∷ rest) m ≡ args_loop rest (insert k v m)
unfolding args_loop
pair_step [] v rest m hk hv = cc
pair_step (c ∷ k) [] rest m hk hv = cc
pair_step (c ∷ k) (d ∷ v) rest m hk hv = ground arith

flag_step :
    (k a : Bytes) (rest : List Bytes) (m : Assoc Bytes)
    → starts_with_dash k ≡ true
    → starts_with_dash a ≡ true
    → args_loop (k ∷ a ∷ rest) m ≡ args_loop (a ∷ rest) (insert k (codes "true") m)
unfolding args_loop
flag_step [] a rest m hk ha = cc
flag_step (c ∷ k) [] rest m hk ha = cc
flag_step (c ∷ k) (d ∷ a) rest m hk ha = ground arith

flag_last :
    (k : Bytes) (m : Assoc Bytes)
    → starts_with_dash k ≡ true
    → args_loop (k ∷ []) m ≡ some (insert k (codes "true") m)
unfolding args_loop
flag_last [] m hk = cc
flag_last (c ∷ k) m hk = ground arith

-- A rendered list of fitting options is read back option by option.
pub args_loop-render :
    (is : List Item) (m : Assoc Bytes)
    → All Fits is
    → args_loop (render is) m ≡ some (record_all is m)
unfolding render record_all
args_loop-render [] m h = unfold args_loop in refl
args_loop-render (pair k v ∷ is) m ((hk, hv), hs) =
    ground (arith, pair_step k v (render is) m hk hv, args_loop-render is (insert k v m) hs)
args_loop-render (flag k ∷ []) m (hk, hs) = flag_last k m hk
args_loop-render (flag k ∷ pair j v ∷ is) m (hk, hs) = ground (
  arith,
  flag_step k j (v ∷ render is) m hk hs.0.0,
  args_loop-render (pair j v ∷ is) (insert k (codes "true") m) hs,
)
args_loop-render (flag k ∷ flag j ∷ is) m (hk, hs) = ground (
  arith,
  flag_step k j (render is) m hk hs.0,
  args_loop-render (flag j ∷ is) (insert k (codes "true") m) hs,
)

-- The value of the last option named `k`, and `d` if there is none.
unfoldable pub last_value : Bytes → List Item → Option Bytes → Option Bytes
last_value k [] d = d
last_value k (pair j v ∷ is) d = last_value k is (if same j k then some v else d)
last_value k (flag j ∷ is) d = last_value k is (if same j k then some (codes "true") else d)

pub lookup-record_all :
    (k : Bytes) (is : List Item) (m : Assoc Bytes)
    → lookup k (record_all is m) ≡ last_value k is (lookup k m)
unfolding record_all last_value
lookup-record_all k [] m = refl
lookup-record_all k (pair j v ∷ is) m = simp (lookup-record_all k is, lookup-insert)
lookup-record_all k (flag j ∷ is) m = simp (lookup-record_all k is, lookup-insert)
