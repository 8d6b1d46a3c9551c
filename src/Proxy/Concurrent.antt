-- ===== src/Proxy/Concurrent.antt =====
-- ensureScaledUp of pkg/proxy/autoscaler.go as several goroutines run it at once: the mutex, the flag
-- isScalingUp and the condition, one step at a time. What podExists answers is left open.
mod Invariant
pub mod Waiting
pub mod SingleFlight
use vllm_chill.Prelude.{ℕ, Bool, true, false, Option, none, some, ◌==◌, if◌then◌else◌, ◌≡◌}

-- Where a goroutine is in the function.
pub data Pc : Type 0 where
  -- not in the function
  outside : Pc
  -- behind Lock, before podExists
  checking : Pc
  -- in waitForReady of a pod that was there
  readying : Pc
  -- at the Lock behind that
  relocking : Pc
  -- in Wait of the condition
  awaiting : Pc
  -- taken off the condition's list, and still to lock the mutex
  woken : Pc
  -- in managePod, or in waitForReady of the new pod
  creating : Pc
  -- at the Lock behind that
  finishing : Pc
  -- at the deferred function that resets the flag
  closing : Pc
  -- at the deferred Unlock
  returning : Pc

-- The answer of podExists.
pub data Answer : Type 0 where
  fails exists missing : Answer

pub record System : Type 0 where
  -- the goroutine that holds the mutex
  pub owner : Option ℕ
  pub is_scaling_up : Bool
  pub pc : ℕ → Pc

abbrev pub update : (ℕ → Pc) → ℕ → Pc → ℕ → Pc
update pc i p j = if j == i then p else pc j

abbrev pub goto : ℕ → Pc → System → System
goto i p s = record s { pc = update s.pc i p }

-- mu.Lock, `none` while another goroutine holds the mutex
unfoldable pub lock : ℕ → Pc → Option ℕ → System → Option System
lock i p none s = some (record s { owner = some i; pc = update s.pc i p })
lock i p (some j) s = none

-- mu.Unlock
abbrev pub unlock : ℕ → Pc → System → System
unlock i p s = record s { owner = none; pc = update s.pc i p }

abbrev pub wake : Pc → Pc
wake awaiting = woken
wake p = p

-- as.scaleUpCond.Broadcast()
abbrev pub broadcast : System → System
broadcast s = record s { pc = λ j. wake (s.pc j) }

-- the branches behind podExists
unfoldable pub decide : ℕ → Answer → Bool → System → System
decide i fails flag s = unlock i outside s
decide i exists flag s = unlock i readying s
-- Wait puts the goroutine on the list before it unlocks the mutex.
decide i missing true s = unlock i awaiting s
decide i missing false s = unlock i creating (record s { is_scaling_up = true })

-- The one step that a goroutine can take; `none` where it is blocked.
unfoldable pub step_at : ℕ → Answer → Pc → System → Option System
unfolding lock decide
step_at i answer outside s = lock i checking s.owner s
step_at i answer checking s = some (decide i answer s.is_scaling_up s)
step_at i answer readying s = some (goto i relocking s)
step_at i answer relocking s = lock i returning s.owner s
step_at i answer awaiting s = none
step_at i answer woken s = lock i returning s.owner s
step_at i answer creating s = some (goto i finishing s)
step_at i answer finishing s = lock i closing s.owner s
step_at i answer closing s =
    some (unlock i outside (broadcast (record s { is_scaling_up = false })))
step_at i answer returning s = some (unlock i outside s)

unfoldable pub step : ℕ → Answer → System → Option System
unfolding step_at
step i answer s = step_at i answer (s.pc i) s

abbrev pub start : System
start = record { owner = none; is_scaling_up = false; pc = λ i. outside }

-- The states that the goroutines come to from one state, in any order of their steps.
pub data Steps (s : System) : System → Type 0 where
  done : Steps s s
  next : {t u : System} (i : ℕ) (answer : Answer) → Steps s t → step i answer t ≡ some u → Steps s u

abbrev pub Reach : System → Type 0
Reach s = Steps start s

-- It creates the pod: from setting the flag to resetting it.
abbrev pub creates : Pc → Bool
creates creating = true
creates finishing = true
creates closing = true
creates p = false

abbrev pub holds : Pc → Bool
holds checking = true
holds closing = true
holds returning = true
holds p = false

abbrev pub awaits : Pc → Bool
awaits awaiting = true
awaits p = false
