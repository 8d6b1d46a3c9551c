-- ===== src/Proxy/Concurrent/Invariant.antt =====
-- What holds in every state that the goroutines of ensureScaledUp reach.
pub mod Parts
use vllm_chill.Prelude.{
  ℕ, Bool, true, false, Option, none, some, ◌==◌, arith, ◌≡◌, ◌≢◌, ◌⊎◌, inl, inr, refl, sym, ap,
  subst, ◌∙◌, Bool-cases,
}
use vllm_chill.Proxy.Concurrent.{
  Pc, outside, checking, readying, relocking, awaiting, woken, creating, finishing, closing,
  returning, Answer, fails, exists, missing, System, update, goto, lock, unlock, wake, broadcast,
  decide, step_at, step, start, done, next, Reach, creates, holds, awaits,
}
use vllm_chill.Proxy.Concurrent.Invariant.Parts.{
  IsLocked, IsFlagged, goto-IsLocked, lock-IsLocked, unlock-IsLocked, same-IsFlagged,
  take-IsFlagged, wake-IsLocked, close-IsFlagged,
}

pub record Inv (s : System) : Type 0 where
  pub is_locked : IsLocked s.owner s.pc
  pub is_flagged : IsFlagged s.is_scaling_up s.pc

start-Inv : Inv start
start-Inv = record {
  is_locked = λ i. ((λ h. ground (arith, h)), (λ h. ground (arith, h)));
  is_flagged = record {
    one_creator = λ i j h k. ground (arith, h);
    flagged = λ i h. h;
    created = λ h. ground (arith, h);
    awaited = λ i h. h;
  };
}

-- What holds where a goroutine is not blocked.
abbrev Unblocked : Option System → Type 0
Unblocked none = Unit {0}
Unblocked (some t) = Inv t

module _ (i : ℕ) (s : System) (inv : Inv s) where
  open inv use {is_locked, is_flagged}

  goto-Inv :
      (p : Pc)
      → holds p ≡ holds (s.pc i)
      → creates p ≡ creates (s.pc i)
      → awaits p ≡ false
      → Inv (goto i p s)
  goto-Inv p h c w = record {
    is_locked = goto-IsLocked s.pc i p s.owner is_locked h;
    is_flagged = same-IsFlagged s.pc i p s.is_scaling_up is_flagged c (λ a. ground (arith, a, w));
  }

  lock-Unblocked :
      (p : Pc) (owner : Option ℕ)
      → s.owner ≡ owner
      → holds p ≡ true
      → creates p ≡ creates (s.pc i)
      → awaits p ≡ false
      → Unblocked (lock i p owner s)
  unfolding lock
  lock-Unblocked p none e h c w = record {
    is_locked = lock-IsLocked s.pc i p (subst (λ o. IsLocked o s.pc) e is_locked) h;
    is_flagged = same-IsFlagged s.pc i p s.is_scaling_up is_flagged c (λ a. ground (arith, a, w));
  }
  lock-Unblocked p (some j) e h c w = tt

  unlock-Inv :
      (p : Pc)
      → holds (s.pc i) ≡ true
      → holds p ≡ false
      → creates p ≡ creates (s.pc i)
      → (awaits p ≡ true → s.is_scaling_up ≡ true)
      → Inv (unlock i p s)
  unlock-Inv p own h c w = record {
    is_locked = unlock-IsLocked s.pc i p s.owner is_locked own h;
    is_flagged = same-IsFlagged s.pc i p s.is_scaling_up is_flagged c w;
  }

  decide-Inv :
      (answer : Answer) (flag : Bool)
      → s.is_scaling_up ≡ flag
      → s.pc i ≡ checking
      → Inv (decide i answer flag s)
  unfolding decide
  decide-Inv fails flag e at =
      unlock-Inv outside (rw at refl) refl (rw at refl) (λ a. ground (arith, a))
  decide-Inv exists flag e at =
      unlock-Inv readying (rw at refl) refl (rw at refl) (λ a. ground (arith, a))
  decide-Inv missing true e at = unlock-Inv awaiting (rw at refl) refl (rw at refl) (λ a. e)
  decide-Inv missing false e at = record {
    is_locked = unlock-IsLocked s.pc i creating s.owner is_locked (rw at refl) refl;
    is_flagged = take-IsFlagged s.pc i creating (subst (λ f. IsFlagged f s.pc) e is_flagged) refl;
  }

  close-Inv :
      s.pc i ≡ closing → Inv (unlock i outside (broadcast (record s { is_scaling_up = false })))
  close-Inv at = record {
    is_locked =
        unlock-IsLocked (λ j. wake (s.pc j)) i outside s.owner
          (wake-IsLocked s.owner s.pc is_locked) (rw at refl) refl;
    is_flagged =
        close-IsFlagged s.pc i
          (subst (λ f. IsFlagged f s.pc) (is_flagged.flagged i (rw at refl)) is_flagged)
          (rw at refl);
  }

  step_at-Unblocked : (answer : Answer) (p : Pc) → s.pc i ≡ p → Unblocked (step_at i answer p s)
  unfolding step_at
  step_at-Unblocked answer outside e = lock-Unblocked checking s.owner refl refl (rw e refl) refl
  step_at-Unblocked answer checking e = decide-Inv answer s.is_scaling_up refl e
  step_at-Unblocked answer readying e = goto-Inv relocking (rw e refl) (rw e refl) refl
  step_at-Unblocked answer relocking e = lock-Unblocked returning s.owner refl refl (rw e refl) refl
  step_at-Unblocked answer awaiting e = tt
  step_at-Unblocked answer woken e = lock-Unblocked returning s.owner refl refl (rw e refl) refl
  step_at-Unblocked answer creating e = goto-Inv finishing (rw e refl) (rw e refl) refl
  step_at-Unblocked answer finishing e = lock-Unblocked closing s.owner refl refl (rw e refl) refl
  step_at-Unblocked answer closing e = close-Inv e
  step_at-Unblocked answer returning e =
      unlock-Inv outside (rw e refl) refl (rw e refl) (λ a. ground (arith, a))

pub step-Inv :
    (i : ℕ) (answer : Answer) (s : System) {t : System} → Inv s → step i answer s ≡ some t → Inv t
unfolding step
step-Inv i answer s inv e = subst Unblocked e (step_at-Unblocked i s inv answer (s.pc i) refl)

pub Reach-Inv : {s : System} → Reach s → Inv s
Reach-Inv done = start-Inv
Reach-Inv (next {t} i answer r e) = step-Inv i answer t (Reach-Inv r) e
