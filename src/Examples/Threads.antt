-- ===== src/Examples/Threads.antt =====
-- The theorems on the goroutines of ensureScaledUp.
use vllm_chill.Prelude.{ℕ, true, Option, none, some, ◌≡◌, refl}
use vllm_chill.Proxy.Concurrent.{
  awaiting, checking, creating, outside, missing, System, update, unlock, lock, decide, step_at,
  step, start, Steps, done, next, Reach,
}
use vllm_chill.Proxy.Concurrent.SingleFlight.{Flight, IsFlight, step-Flight}
use vllm_chill.Proxy.Concurrent.Waiting.{waiter_can_return}

abbrev first_locks : System
first_locks = record start { owner = some 0; pc = update start.pc 0 checking }

abbrev first_creates : System
first_creates = unlock 0 creating (record first_locks { is_scaling_up = true })

abbrev second_locks : System
second_locks = record first_creates { owner = some 1; pc = update first_creates.pc 1 checking }

-- Goroutine 0 creates the pod, and goroutine 1 waits for it.
abbrev second_waits : System
second_waits = unlock 1 awaiting second_locks

second_waits-Reach : Reach second_waits
unfolding step step_at lock decide
second_waits-Reach =
    next 1 missing (next 1 missing (next 0 missing (next 0 missing done refl) refl) refl) refl

waiter_can_return_example : (u : System) × Steps second_waits u × (u.pc 1 ≡ outside)
waiter_can_return_example = waiter_can_return missing second_waits 1 second_waits-Reach refl

step-Flight_example : (o : Option ℕ) × Flight 0 none o × IsFlight first_creates o
unfolding step step_at lock decide
step-Flight_example =
    step-Flight 0 missing first_locks first_creates none (next 0 missing done refl) refl refl
