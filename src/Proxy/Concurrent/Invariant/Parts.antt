-- ===== src/Proxy/Concurrent/Invariant/Parts.antt =====
-- The two parts of the invariant of ensureScaledUp's goroutines, under each kind of change.
use vllm_chill.Prelude.{
  ℕ, Bool, true, false, Option, none, some, ◌==◌, arith, ◌≡◌, ◌≢◌, ◌⊎◌, inl, inr, refl, sym, ap,
  ◌∙◌, Bool-cases,
}
use vllm_chill.Proxy.Concurrent.{Pc, outside, awaiting, update, wake, creates, holds, awaits}

-- The goroutine that holds the mutex is the one that is in a place where it does.
abbrev pub IsLocked : Option ℕ → (ℕ → Pc) → Type 0
IsLocked owner pc =
    (i : ℕ) → ((holds (pc i) ≡ true) → owner ≡ some i) × (owner ≡ some i → holds (pc i) ≡ true)

-- One goroutine at most creates the pod, the flag tells whether one does, and who waits has one.
pub record IsFlagged (flag : Bool) (pc : ℕ → Pc) : Type 0 where
  pub one_creator : (i j : ℕ) → creates (pc i) ≡ true → creates (pc j) ≡ true → i ≡ j
  pub flagged : (i : ℕ) → creates (pc i) ≡ true → flag ≡ true
  pub created : flag ≡ true → (i : ℕ) × (creates (pc i) ≡ true)
  pub awaited : (i : ℕ) → awaits (pc i) ≡ true → flag ≡ true

-- A test on a family that is changed at one place.
pub on_update :
    (test : Pc → Bool) (pc : ℕ → Pc) (i : ℕ) (p : Pc) (j : ℕ)
    → ((j ≡ i) × (test (update pc i p j) ≡ test p))
      ⊎ ((j ≢ i) × (test (update pc i p j) ≡ test (pc j)))
on_update test pc i p j = elim (Bool-cases (j == i)) [
  | inl e ↦ inl (ground (arith, e), rw e refl)
  | inr e ↦ inr ((λ h. ground (arith, e, h)), rw e refl)
]

module _ (pc : ℕ → Pc) (i : ℕ) (p : Pc) where
  pub goto-IsLocked :
      (owner : Option ℕ)
      → IsLocked owner pc
      → holds p ≡ holds (pc i)
      → IsLocked owner (update pc i p)
  goto-IsLocked owner inv h j = elim (on_update holds pc i p j) [
    | inl (e, u) ↦ rw (u, e, h) (inv i)
    | inr (e, u) ↦ rw u (inv j)
  ]

  pub lock-IsLocked : IsLocked none pc → holds p ≡ true → IsLocked (some i) (update pc i p)
  lock-IsLocked inv h j = elim (on_update holds pc i p j) [
    | inl (e, u) ↦ rw (u, e, h) ((λ k. refl), (λ k. refl))
    | inr (e, u) ↦ rw u ((λ k. ground (arith, (inv j).0 k)), (λ k. ground (arith, e, k)))
  ]

  pub unlock-IsLocked :
      (owner : Option ℕ)
      → IsLocked owner pc
      → holds (pc i) ≡ true
      → holds p ≡ false
      → IsLocked none (update pc i p)
  unlock-IsLocked owner inv own h j = elim (on_update holds pc i p j) [
    | inl (e, u) ↦ rw (u, h) ((λ k. ground (arith, k)), (λ k. ground (arith, k)))
    | inr (e, u) ↦
        rw u ((λ k. ground (arith, e, (inv j).0 k, (inv i).0 own)), (λ k. ground (arith, k)))
  ]

  pub same-IsFlagged :
      (flag : Bool)
      → IsFlagged flag pc
      → creates p ≡ creates (pc i)
      → (awaits p ≡ true → flag ≡ true)
      → IsFlagged flag (update pc i p)
  same-IsFlagged flag inv h w = record {
    one_creator = λ j k a b. inv.one_creator j k (was j a) (was k b);
    flagged = λ j a. inv.flagged j (was j a);
    created = λ f. let (j, c) = inv.created f in (j, stays j c);
    awaited = λ j a. elim (on_update awaits pc i p j) [
      | inl (e, u) ↦ w (sym u ∙ a)
      | inr (e, u) ↦ inv.awaited j (sym u ∙ a)
    ];
  }
    where
      was : (j : ℕ) → creates (update pc i p j) ≡ true → creates (pc j) ≡ true
      was j a = elim (on_update creates pc i p j) [
        | inl (e, u) ↦ rw e (sym h ∙ sym u ∙ a)
        | inr (e, u) ↦ sym u ∙ a
      ]

      stays : (j : ℕ) → creates (pc j) ≡ true → creates (update pc i p j) ≡ true
      stays j c = elim (on_update creates pc i p j) [
        | inl (e, u) ↦ u ∙ h ∙ ap (λ k. creates (pc k)) (sym e) ∙ c
        | inr (e, u) ↦ u ∙ c
      ]

  pub take-IsFlagged : IsFlagged false pc → creates p ≡ true → IsFlagged true (update pc i p)
  take-IsFlagged inv h = record {
    one_creator = λ j k a b. is_here j a ∙ sym (is_here k b);
    flagged = λ j a. refl;
    created = λ f. (i, ground (arith, h));
    awaited = λ j a. refl;
  }
    where
      is_here : (j : ℕ) → creates (update pc i p j) ≡ true → j ≡ i
      is_here j a = elim (on_update creates pc i p j) [
        | inl (e, u) ↦ e
        | inr (e, u) ↦ ground (arith, inv.flagged j (sym u ∙ a))
      ]

-- A wake changes neither what a goroutine creates nor what it holds.
creates-wake : (p : Pc) → creates (wake p) ≡ creates p
creates-wake awaiting = refl
creates-wake p = refl

holds-wake : (p : Pc) → holds (wake p) ≡ holds p
holds-wake awaiting = refl
holds-wake p = refl

awaits-wake : (p : Pc) → awaits (wake p) ≡ false
awaits-wake awaiting = refl
awaits-wake p = refl

pub wake-IsLocked :
    (owner : Option ℕ) (pc : ℕ → Pc) → IsLocked owner pc → IsLocked owner (λ j. wake (pc j))
wake-IsLocked owner pc inv j = rw (holds-wake (pc j)) (inv j)

pub close-IsFlagged :
    (pc : ℕ → Pc) (i : ℕ)
    → IsFlagged true pc
    → creates (pc i) ≡ true
    → IsFlagged false (update (λ j. wake (pc j)) i outside)
close-IsFlagged pc i inv c = record {
  one_creator = λ j k a b. ground (arith, none_left j a);
  flagged = none_left;
  created = λ f. ground (arith, f);
  awaited = none_waits;
}
  where
    none_left : (j : ℕ) → creates (update (λ j. wake (pc j)) i outside j) ≡ true → false ≡ true
    none_left j a = elim (on_update creates (λ j. wake (pc j)) i outside j) [
      | inl (e, u) ↦ sym u ∙ a
      | inr (e, u) ↦
          ground (arith, e, inv.one_creator j i (sym (creates-wake (pc j)) ∙ sym u ∙ a) c)
    ]

    none_waits : (j : ℕ) → awaits (update (λ j. wake (pc j)) i outside j) ≡ true → false ≡ true
    none_waits j a = elim (on_update awaits (λ j. wake (pc j)) i outside j) [
      | inl (e, u) ↦ sym u ∙ a
      | inr (e, u) ↦ sym (awaits-wake (pc j)) ∙ sym u ∙ a
    ]
