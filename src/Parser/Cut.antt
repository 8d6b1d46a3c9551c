-- ===== src/Parser/Cut.antt =====
-- A string cut at the first place where a mark stands, as strings.Cut does, and strings.Index by it.
pub mod Skips
use vllm_chill.Prelude.{
  ℕ, suc, Bytes, index, has_prefix, Bool, true, false, Option, none, some, List, [], ◌∷◌, ◌++◌,
  append_assoc, length, drop, if◌then◌else◌, arith, ◌≡◌, refl, ap, ◌∙◌, sym, ◌⊎◌, inl, inr,
  Bool-cases,
}

abbrev in_front : ℕ → Option (Bytes × Bytes) → Option (Bytes × Bytes)
in_front c none = none
in_front c (some (p, q)) = some (c ∷ p, q)

unfoldable pub cut : Bytes → Bytes → Option (Bytes × Bytes)
unfolding has_prefix
cut mark [] = if has_prefix [] mark then some ([], []) else none
cut mark (c ∷ s) =
    let later = in_front c (cut mark s) in
    if has_prefix (c ∷ s) mark then some ([], drop (length mark) (c ∷ s)) else later

has_prefix-append : (s mark : Bytes) → has_prefix s mark ≡ true → s ≡ mark ++ drop (length mark) s
unfolding has_prefix
has_prefix-append s [] h = refl
has_prefix-append [] (d ∷ mark) h = ground arith
has_prefix-append (c ∷ s) (d ∷ mark) h = ground (arith, has_prefix-append s mark)

abbrev pub IsCut : Bytes → Bytes → Bytes → Bytes → Type 0
IsCut mark s p q =
    (index s mark ≡ some (length p)) × (cut mark s ≡ some (p, q)) × (s ≡ p ++ (mark ++ q))

abbrev pub View : Bytes → Bytes → Type 0
View mark s =
    ((index s mark ≡ none) × (cut mark s ≡ none)) ⊎ ((p : Bytes) × (q : Bytes) × IsCut mark s p q)

View-later :
    (c : ℕ) (mark s : Bytes) → has_prefix (c ∷ s) mark ≡ false → View mark s → View mark (c ∷ s)
unfolding index cut
View-later c mark s h (inl (i, k)) = inl (rw (h, i) refl, rw (h, k) refl)
View-later c mark s h (inr (p, q, (i, k, e))) =
    inr (c ∷ p, q, (rw (h, i) refl, rw (h, k) refl, ap (λ t. c ∷ t) e))

pub view : (mark s : Bytes) → View mark s
unfolding index cut has_prefix
view [] [] = inr ([], [], (refl, refl, refl))
view (d ∷ mark) [] = inl (refl, refl)
view mark (c ∷ s) = elim (Bool-cases (has_prefix (c ∷ s) mark)) [
  | inl h ↦
      inr ([], drop (length mark) (c ∷ s), (rw h refl, rw h refl, has_prefix-append (c ∷ s) mark h))
  | inr h ↦ View-later c mark s h (view mark s)
]

pub regroup : (a b c d : Bytes) → a ++ (b ++ (c ++ d)) ≡ a ++ b ++ c ++ d
regroup a b c d = sym (append_assoc (a ++ b) c d ∙ append_assoc a b (c ++ d))

pub inside :
    (head : Bytes) {content rest part : Bytes}
    → content ≡ head ++ rest
    → rest ≡ part
    → content ≡ head ++ part
inside head e h = e ∙ ap (λ t. head ++ t) h
