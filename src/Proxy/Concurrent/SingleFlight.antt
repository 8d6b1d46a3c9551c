-- ===== src/Proxy/Concurrent/SingleFlight.antt =====
-- What the mutex, the flag and the condition of ensureScaledUp implement: one creation at a time, begun
-- and ended by the goroutine that it belongs to.
use vllm_chill.Prelude.{
  ℕ, Bool, true, false, Option, none, some, arith, ◌≡◌, inl, inr, refl, sym, ap, subst, ◌∙◌,
}
use vllm_chill.Proxy.Concurrent.{
  Pc, outside, checking, readying, relocking, awaiting, woken, creating, finishing, closing,
  returning, Answer, fails, exists, missing, System, update, lock, unlock, broadcast, decide,
  step_at, step, Reach, creates,
}
use vllm_chill.Proxy.Concurrent.Invariant.{Inv, Reach-Inv}
use vllm_chill.Proxy.Concurrent.Invariant.Parts.{on_update}

-- The specification: nobody creates the pod, or one goroutine does. What the goroutine `i` may change
-- of it: begin where there is no creation, and end its own.
pub data Flight (i : ℕ) : Option ℕ → Option ℕ → Type 0 where
  begins : Flight i none (some i)
  ends : Flight i (some i) none
  rests : (o : Option ℕ) → Flight i o o

-- The state shows that creation.
abbrev pub IsFlight : System → Option ℕ → Type 0
IsFlight s none = s.is_scaling_up ≡ false
IsFlight s (some i) = creates (s.pc i) ≡ true

creates-update :
    (pc : ℕ → Pc) (i : ℕ) (p : Pc) (j : ℕ)
    → creates p ≡ creates (pc i)
    → creates (pc j) ≡ true
    → creates (update pc i p j) ≡ true
creates-update pc i p j h c = elim (on_update creates pc i p j) [
  | inl (e, u) ↦ u ∙ h ∙ ap (λ k. creates (pc k)) (sym e) ∙ c
  | inr (e, u) ↦ u ∙ c
]

-- Where a goroutine is not blocked, its step is one of the specification.
abbrev Follows : ℕ → Option ℕ → Option System → Type 0
Follows i o none = Unit {0}
Follows i o (some t) = (o_after : Option ℕ) × Flight i o o_after × IsFlight t o_after

module _ (i : ℕ) (s : System) (inv : Inv s) where
  open inv use {is_flagged}

  begins_from : (o : Option ℕ) → IsFlight s o → s.is_scaling_up ≡ false → Flight i o (some i)
  begins_from none flight flag = begins
  begins_from (some j) flight flag = ground (arith, flag, is_flagged.flagged j flight)

  ends_from : (o : Option ℕ) → IsFlight s o → creates (s.pc i) ≡ true → Flight i o none
  ends_from none flight c = ground (arith, flight, is_flagged.flagged i c)
  ends_from (some j) flight c =
      subst (λ k. Flight i (some k) none) (is_flagged.one_creator i j c flight) ends

  IsFlight-kept :
      (p : Pc) (owner o : Option ℕ)
      → creates p ≡ creates (s.pc i)
      → IsFlight s o
      → IsFlight (record s { owner = owner; pc = update s.pc i p }) o
  IsFlight-kept p owner none h flight = flight
  IsFlight-kept p owner (some j) h flight = creates-update s.pc i p j h flight

module _ (i : ℕ) (s : System) (inv : Inv s) (o : Option ℕ) (flight : IsFlight s o) where
  -- A step that changes neither the flag nor who creates.
  keeps :
      (p : Pc) (owner : Option ℕ)
      → creates p ≡ creates (s.pc i)
      → Follows i o (some (record s { owner = owner; pc = update s.pc i p }))
  keeps p owner h = (o, rests o, IsFlight-kept i s inv p owner o h flight)

  locks :
      (p : Pc) (owner : Option ℕ) → creates p ≡ creates (s.pc i) → Follows i o (lock i p owner s)
  unfolding lock
  locks p none h = keeps p (some i) h
  locks p (some j) h = tt

  decides :
      (answer : Answer) (flag : Bool)
      → s.is_scaling_up ≡ flag
      → s.pc i ≡ checking
      → Follows i o (some (decide i answer flag s))
  unfolding decide
  decides fails flag e at = keeps outside none (rw at refl)
  decides exists flag e at = keeps readying none (rw at refl)
  decides missing true e at = keeps awaiting none (rw at refl)
  decides missing false e at = (some i, begins_from i s inv o flight e, ground arith)

  closes :
      s.pc i ≡ closing
      → Follows i o (some (unlock i outside (broadcast (record s { is_scaling_up = false }))))
  closes at = (none, ends_from i s inv o flight (rw at refl), refl)

  step_at-Follows : (answer : Answer) (p : Pc) → s.pc i ≡ p → Follows i o (step_at i answer p s)
  unfolding step_at
  step_at-Follows answer outside e = locks checking s.owner (rw e refl)
  step_at-Follows answer checking e = decides answer s.is_scaling_up refl e
  step_at-Follows answer readying e = keeps relocking s.owner (rw e refl)
  step_at-Follows answer relocking e = locks returning s.owner (rw e refl)
  step_at-Follows answer awaiting e = tt
  step_at-Follows answer woken e = locks returning s.owner (rw e refl)
  step_at-Follows answer creating e = keeps finishing s.owner (rw e refl)
  step_at-Follows answer finishing e = locks closing s.owner (rw e refl)
  step_at-Follows answer closing e = closes e
  step_at-Follows answer returning e = keeps outside none (rw e refl)

-- Every step of a goroutine through ensureScaledUp, in every state that is reached, is a step of the
-- specification: it begins a creation only where there is none, ends only its own, and else leaves it.
pub step-Flight :
    (i : ℕ) (answer : Answer) (s t : System) (o : Option ℕ)
    → Reach s
    → IsFlight s o
    → step i answer s ≡ some t
    → (o_after : Option ℕ) × Flight i o o_after × IsFlight t o_after
unfolding step
step-Flight i answer s t o r flight e =
    subst (Follows i o) e (step_at-Follows i s (Reach-Inv r) o flight answer (s.pc i) refl)
