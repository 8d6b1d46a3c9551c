-- ===== src/Proxy/Concurrent/Waiting.antt =====
-- What the goroutines of ensureScaledUp can rely on: one of them creates the pod, and a wake-up is not
-- lost.
use vllm_chill.Prelude.{
  ℕ, Bool, true, false, not, Option, none, some, arith, ◌≡◌, ◌≢◌, inl, inr, refl, sym, ap, ◌∙◌,
  Bool-cases,
}
use vllm_chill.Proxy.Concurrent.{
  Pc, outside, checking, readying, awaiting, woken, creating, finishing, closing, returning, Answer,
  fails, exists, missing, System, update, goto, lock, unlock, wake, broadcast, decide, step_at,
  step, Steps, done, next, Reach, creates, holds, awaits,
}
use vllm_chill.Proxy.Concurrent.Invariant.{Inv, Reach-Inv, step-Inv}

-- In every order of the steps, two goroutines are never between setting and resetting isScalingUp
-- together: one at most creates the pod and waits for it.
pub one_creates_at_a_time :
    {s : System} (i j : ℕ) → Reach s → creates (s.pc i) ≡ true → creates (s.pc j) ≡ true → i ≡ j
one_creates_at_a_time i j r = (Reach-Inv r).is_flagged.one_creator i j

update-here : (pc : ℕ → Pc) (i : ℕ) (p : Pc) → update pc i p i ≡ p
update-here pc i p = ground arith

update-other : (pc : ℕ → Pc) (i j : ℕ) (p : Pc) → j ≢ i → update pc i p j ≡ pc j
update-other pc i j p h = ground (arith, h)

-- The state is reached from `s`, and the invariant still holds there.
abbrev From : System → System → Type 0
From s t = Steps s t × Inv t

advance :
    {s t u : System} (i : ℕ) (answer : Answer) → From s t → step i answer t ≡ some u → From s u
advance {t = t} i answer (steps, inv) e = (next i answer steps e, step-Inv i answer t inv e)

step-at :
    (i : ℕ) (answer : Answer) (s : System) (p : Pc)
    → s.pc i ≡ p
    → step i answer s ≡ step_at i answer p s
unfolding step
step-at i answer s p e = rw (step, e) refl

not_self : (b : Bool) → b ≢ not b
not_self true e = ground (arith, e)
not_self false e = ground (arith, e)

-- Goroutines at places that a test tells apart are different.
apart :
    (test : Pc → Bool) (pc : ℕ → Pc) {i j : ℕ} {p q : Pc}
    → pc i ≡ p
    → pc j ≡ q
    → test q ≡ not (test p)
    → i ≢ j
apart test pc {p = p} at_i at_j h e =
    not_self (test p) (ap test (sym at_i) ∙ ap (λ k. test (pc k)) e ∙ ap test at_j ∙ h)

module _ (answer : Answer) (s : System) (i : ℕ) where
  -- A goroutine that is awake returns as soon as the mutex is free.
  woken_returns :
      (t : System)
      → From s t
      → t.pc i ≡ woken
      → t.owner ≡ none
      → (u : System) × Steps s u × (u.pc i ≡ outside)
  unfolding step_at lock
  woken_returns t from at free =
      let t1 = record t { owner = some i; pc = update t.pc i returning } in
      let t2 = unlock i outside t1 in
      let locked = advance i answer from (step-at i answer t woken at ∙ rw free refl) in
      let (steps, _) =
        advance i answer locked (step-at i answer t1 returning (update-here t.pc i returning)) in
      (t2, steps, update-here t1.pc i outside)

  closing_wakes :
      (j : ℕ) (t : System)
      → From s t
      → t.pc i ≡ awaiting
      → t.pc j ≡ closing
      → (u : System) × Steps s u × (u.pc i ≡ outside)
  unfolding step_at
  closing_wakes j t from at_i at_j =
      let t1 = unlock j outside (broadcast (record t { is_scaling_up = false })) in
      woken_returns t1 (advance j answer from (step-at j answer t closing at_j))
        (update-other (λ k. wake (t.pc k)) j i outside (apart awaits t.pc at_i at_j refl)
          ∙ ap wake at_i)
        refl

  -- Whoever holds the mutex, and is not at the deferred function, gives it back in one step.
  module _ (j k : ℕ) (t : System) (from : From s t) (at_i : t.pc i ≡ awaiting)
      (at_j : t.pc j ≡ finishing) where
    gives_back :
        (p q : Pc)
        → t.pc k ≡ p
        → holds p ≡ true
        → step k answer t ≡ some (unlock k q t)
        → (u : System) × From s u × (u.pc i ≡ awaiting) × (u.pc j ≡ finishing) × (u.owner ≡ none)
    gives_back p q at_k h run = (
      unlock k q t,
      advance k answer from run,
      update-other t.pc k i q (apart holds t.pc at_i at_k h) ∙ at_i,
      update-other t.pc k j q (apart holds t.pc at_j at_k h) ∙ at_j,
      refl,
    )

    -- whatever podExists answers
    checking_releases :
        (a : Answer)
        → t.pc k ≡ checking
        → t.is_scaling_up ≡ true
        → (q : Pc) × (decide k a t.is_scaling_up t ≡ unlock k q t)
    unfolding decide
    checking_releases fails at_k flag = (outside, refl)
    checking_releases exists at_k flag = (readying, refl)
    checking_releases missing at_k flag = (awaiting, rw flag refl)

    holder_releases :
        (p : Pc)
        → t.pc k ≡ p
        → holds p ≡ true
        → creates p ≡ false
        → (u : System) × From s u × (u.pc i ≡ awaiting) × (u.pc j ≡ finishing) × (u.owner ≡ none)
    unfolding step_at
    holder_releases checking at_k h c =
        let flag = from.1.is_flagged.awaited i (rw at_i refl) in
        let (q, e) = checking_releases answer at_k flag in
        gives_back checking q at_k h (step-at k answer t checking at_k ∙ ap some e)
    holder_releases returning at_k h c =
        gives_back returning outside at_k h (step-at k answer t returning at_k)
    holder_releases p at_k h c = ground (arith, h, c)

  finishing_wakes :
      (j : ℕ) (t : System)
      → From s t
      → t.pc i ≡ awaiting
      → t.pc j ≡ finishing
      → t.owner ≡ none
      → (u : System) × Steps s u × (u.pc i ≡ outside)
  unfolding step_at lock
  finishing_wakes j t from at_i at_j free =
      let t1 = record t { owner = some j; pc = update t.pc j closing } in
      closing_wakes j t1 (advance j answer from (step-at j answer t finishing at_j ∙ rw free refl))
        (update-other t.pc j i closing (apart awaits t.pc at_i at_j refl) ∙ at_i)
        (update-here t.pc j closing)

  finishing_returns :
      (j : ℕ) (t : System) (o : Option ℕ)
      → t.owner ≡ o
      → From s t
      → t.pc i ≡ awaiting
      → t.pc j ≡ finishing
      → (u : System) × Steps s u × (u.pc i ≡ outside)
  finishing_returns j t none e from at_i at_j = finishing_wakes j t from at_i at_j e
  finishing_returns j t (some k) e from at_i at_j =
      let held = (from.1.is_locked k).1 e in
      let (u, from_u, u_i, u_j, free) =
        holder_releases j k t from at_i at_j (t.pc k) refl held
          (holder_waits j k t from at_j held) in
      finishing_wakes j u from_u u_i u_j free
    where
      -- The creator is at its Lock, so the holder is another goroutine.
      holder_waits :
          (j k : ℕ) (t : System)
          → From s t
          → t.pc j ≡ finishing
          → holds (t.pc k) ≡ true
          → creates (t.pc k) ≡ false
      holder_waits j k t from at_j held = elim (Bool-cases (creates (t.pc k))) [
        | inl c ↦
            elim (apart holds t.pc at_j refl held
              (from.1.is_flagged.one_creator j k (rw at_j refl) c)) [ ]
        | inr c ↦ c
      ]

  creator_returns :
      (j : ℕ) (p : Pc)
      → From s s
      → s.pc i ≡ awaiting
      → s.pc j ≡ p
      → creates p ≡ true
      → (u : System) × Steps s u × (u.pc i ≡ outside)
  unfolding step_at
  creator_returns j creating from at_i at_j c =
      let t = goto j finishing s in
      finishing_returns j t s.owner refl (advance j answer from (step-at j answer s creating at_j))
        (update-other s.pc j i finishing (apart awaits s.pc at_i at_j refl) ∙ at_i)
        (update-here s.pc j finishing)
  creator_returns j finishing from at_i at_j c = finishing_returns j s s.owner refl from at_i at_j
  creator_returns j closing from at_i at_j c = closing_wakes j s from at_i at_j
  creator_returns j p from at_i at_j c = ground (arith, c)

-- No wake-up is lost: from every state that the goroutines reach, and whatever podExists answers, a
-- goroutine that waits for the condition can still come to its return.
pub waiter_can_return :
    (answer : Answer) (s : System) (i : ℕ)
    → Reach s
    → s.pc i ≡ awaiting
    → (u : System) × Steps s u × (u.pc i ≡ outside)
waiter_can_return answer s i r at =
    let inv = Reach-Inv r in
    let (j, c) = inv.is_flagged.created (inv.is_flagged.awaited i (rw at refl)) in
    creator_returns answer s i j (s.pc j) (done, inv) at refl c
