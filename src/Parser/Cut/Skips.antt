-- ===== src/Parser/Cut/Skips.antt =====
-- Texts that a mark cannot start in: a cut passes over them.
use vllm_chill.Prelude.{
  ℕ, Bytes, has_prefix, index, Bool, true, false, Option, none, some, [], ◌∷◌, ◌++◌, length, drop,
  ◌==◌, ◌&&◌, not, All, append-nil, drop-length-append, take-length-append, append_assoc,
  length-append, arith, ◌≡◌, refl, ap, ◌∙◌, sym, inl, inr,
}
use vllm_chill.Parser.Text.{remove_first}
use vllm_chill.Parser.Cut.{cut, in_front, view}

abbrev pub all_in_front : Bytes → Option (Bytes × Bytes) → Option (Bytes × Bytes)
all_in_front p none = none
all_in_front p (some (a, b)) = some (p ++ a, b)

-- No find of the mark starts in the text, whatever follows it.
abbrev pub Skips : Bytes → Bytes → Type 0
Skips mark p = (q : Bytes) → cut mark (p ++ q) ≡ all_in_front p (cut mark q)

-- The byte does not stand in the text.
abbrev pub Lacks : ℕ → Bytes → Type 0
Lacks b = All (λ c. (c == b) ≡ false)

all_in_front-nil : (o : Option (Bytes × Bytes)) → o ≡ all_in_front [] o
all_in_front-nil none = refl
all_in_front-nil (some (a, b)) = refl

in_front-all :
    (c : ℕ) (p : Bytes) (o : Option (Bytes × Bytes))
    → in_front c (all_in_front p o) ≡ all_in_front (c ∷ p) o
in_front-all c p none = refl
in_front-all c p (some (a, b)) = refl

all_in_front-append :
    (p r : Bytes) (o : Option (Bytes × Bytes))
    → all_in_front p (all_in_front r o) ≡ all_in_front (p ++ r) o
all_in_front-append p r none = refl
all_in_front-append p r (some (a, b)) = ap (λ t. some (t, b)) (sym (append_assoc p r a))

pub Skips-append : (mark p r : Bytes) → Skips mark p → Skips mark r → Skips mark (p ++ r)
Skips-append mark p r hp hr q =
    ap (cut mark) (append_assoc p r q)
    ∙ hp (r ++ q)
    ∙ ap (all_in_front p) (hr q)
    ∙ all_in_front-append p r (cut mark q)

pub Lacks-Skips : (m : ℕ) (ms p : Bytes) → Lacks m p → Skips (m ∷ ms) p
unfolding cut has_prefix
Lacks-Skips m ms [] h q = all_in_front-nil (cut (m ∷ ms) q)
Lacks-Skips m ms (c ∷ p) (hc, h) q =
    rw hc (ap (in_front c) (Lacks-Skips m ms p h q) ∙ in_front-all c p (cut (m ∷ ms) q))

-- The mark and the text are equal as far as both reach.
abbrev overlaps : Bytes → Bytes → Bool
overlaps [] s = true
overlaps (m ∷ mark) [] = true
overlaps (m ∷ mark) (c ∷ s) = c == m && overlaps mark s

-- The mark overlaps no end of the text.
abbrev pub is_clear_of : Bytes → Bytes → Bool
is_clear_of mark [] = true
is_clear_of mark (c ∷ p) = not (overlaps mark (c ∷ p)) && is_clear_of mark p

has_prefix-overlaps :
    (mark s q : Bytes) → overlaps mark s ≡ false → has_prefix (s ++ q) mark ≡ false
unfolding has_prefix
has_prefix-overlaps [] s q h = ground (arith, h)
has_prefix-overlaps (m ∷ mark) [] q h = ground (arith, h)
has_prefix-overlaps (m ∷ mark) (c ∷ s) q h = ground (arith, h, has_prefix-overlaps mark s q)

pub is_clear_of-Skips : (mark p : Bytes) → is_clear_of mark p ≡ true → Skips mark p
unfolding cut
is_clear_of-Skips mark [] h q = all_in_front-nil (cut mark q)
is_clear_of-Skips mark (c ∷ p) h q = rw (has_prefix-overlaps mark (c ∷ p) q (ground (arith, h))) (
    ap (in_front c) (is_clear_of-Skips mark p (ground (arith, h)) q)
    ∙ in_front-all c p (cut mark q))

has_prefix_self : (mark q : Bytes) → has_prefix (mark ++ q) mark ≡ true
unfolding has_prefix
has_prefix_self [] q = refl
has_prefix_self (c ∷ mark) q = ground (arith, has_prefix_self mark q)

cut-here : (m : ℕ) (ms q : Bytes) → cut (m ∷ ms) (m ∷ ms ++ q) ≡ some ([], q)
unfolding cut
cut-here m ms q = rw (has_prefix_self (m ∷ ms) q, drop-length-append (m ∷ ms) q) refl

-- A cut at the first find of the mark.
pub cut-Skips :
    (m : ℕ) (ms p q : Bytes) → Skips (m ∷ ms) p → cut (m ∷ ms) (p ++ (m ∷ ms ++ q)) ≡ some (p, q)
cut-Skips m ms p q h =
    h (m ∷ ms ++ q) ∙ ap (all_in_front p) (cut-here m ms q) ∙ ap (λ t. some (t, q)) (append-nil p)

-- The parts of a cut, in a shape that projects to them.
abbrev before_mark : Option (Bytes × Bytes) → Bytes
before_mark none = []
before_mark (some (p, q)) = p

index-cut : (mark s p q : Bytes) → cut mark s ≡ some (p, q) → index s mark ≡ some (length p)
index-cut mark s p q h = elim (view mark s) [
  | inl (i, k) ↦ cc
  | inr (a, b, (i, k, split)) ↦ i ∙ ap (λ o. some (length (before_mark o))) (sym k ∙ h)
]

remove_first-at :
    (mark p q : Bytes)
    → index (p ++ (mark ++ q)) mark ≡ some (length p)
    → remove_first mark (p ++ (mark ++ q)) ≡ p ++ q
unfolding remove_first
remove_first-at mark p q h =
    rw (remove_first, h, take-length-append p (mark ++ q))
      (ap (λ t. p ++ t)
        (ap (λ n. drop n (p ++ (mark ++ q))) (sym (length-append p mark))
          ∙ ap (drop (length (p ++ mark))) (sym (append_assoc p mark q))
          ∙ drop-length-append (p ++ mark) q))

pub remove_first-Skips :
    (m : ℕ) (ms p q : Bytes)
    → Skips (m ∷ ms) p
    → remove_first (m ∷ ms) (p ++ (m ∷ ms ++ q)) ≡ p ++ q
remove_first-Skips m ms p q h =
    remove_first-at (m ∷ ms) p q
      (index-cut (m ∷ ms) (p ++ (m ∷ ms ++ q)) p q (cut-Skips m ms p q h))
