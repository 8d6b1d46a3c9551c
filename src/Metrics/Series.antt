-- ===== src/Metrics/Series.antt =====
-- Vectors of Prometheus metrics: a value for each list of label values that was used.
use vllm_chill.Prelude.{
  Bytes, same, same_iff, Bool, true, false, ◌&&◌, List, [], ◌∷◌, if◌then◌else◌, arith, ◌≡◌, ◌↔◌,
}

abbrev pub Labels : Type 0
Labels = List Bytes

unfoldable pub same_labels : Labels → Labels → Bool
unfolding same
same_labels [] [] = true
same_labels [] (b ∷ bs) = false
same_labels (a ∷ ks) [] = false
same_labels (a ∷ ks) (b ∷ bs) = same a b && same_labels ks bs

pub same_labels_iff : (ks bs : Labels) → (same_labels ks bs ≡ true) ↔ (ks ≡ bs)
unfolding same_labels
same_labels_iff [] [] = ground arith
same_labels_iff [] (b ∷ bs) = ground arith
same_labels_iff (a ∷ ks) [] = ground arith
same_labels_iff (a ∷ ks) (b ∷ bs) = ground (arith, same_iff a b, same_labels_iff ks bs)

module _ {ℓ} {A : Type ℓ} (unused : A) where
  -- the value for the labels
  unfoldable pub value_of : Labels → List (Labels × A) → A
  unfolding same_labels
  value_of k [] = unused
  value_of k ((j, a) ∷ v) = if same_labels j k then a else value_of k v

  -- changes the value for the labels, WithLabelValues(…)
  unfoldable pub alter : Labels → (A → A) → List (Labels × A) → List (Labels × A)
  unfolding same_labels
  alter k f [] = (k, f unused) ∷ []
  alter k f ((j, a) ∷ v) = if same_labels j k then (j, f a) ∷ v else (j, a) ∷ alter k f v

  pub value_of-alter :
      (k j : Labels) (f : A → A) (v : List (Labels × A))
      → value_of j (alter k f v) ≡ (if same_labels k j then f (value_of j v) else value_of j v)
  unfolding value_of alter
  value_of-alter k j f [] = ground (arith, same_labels_iff k j)
  value_of-alter k j f ((i, a) ∷ v) =
      ground (
        arith,
        value_of-alter k j f v,
        same_labels_iff k j,
        same_labels_iff i j,
        same_labels_iff i k,
      )
