-- ===== src/Metrics/Idle.antt =====
-- The goroutine of pkg/stats/metrics.go that shows how long the program has been idle. After Stop the
-- ticker may still have a tick ready, and select takes either of the two, so the goroutine may show
-- the time once more before it returns.
pub mod Shown
use vllm_chill.Prelude.{ℕ, ◌-◌, Bool, true, false, Result, ok, panic, ◌≡◌, if◌then◌else◌}

-- The fields of MetricsRecorder for this, the gauge idleTimeSeconds, and whether the goroutine is in
-- its loop. The time is in nanoseconds.
pub record Idle : Type 0 where
  pub last_activity_time : ℕ
  pub idle_time : ℕ
  -- stopIdleUpdater is closed
  pub closed : Bool
  pub running : Bool

-- NewMetricsRecorder
unfoldable pub new_recorder : ℕ → Idle
new_recorder now = record {
  last_activity_time = now;
  idle_time = 0;
  closed = false;
  running = true;
}

-- Stop; closing a closed channel panics.
unfoldable pub stop : Idle → Result Idle
stop s = if s.closed then panic else ok (record s { closed = true })

-- UpdateActivity
unfoldable pub update_activity : ℕ → Idle → Idle
update_activity now s = record s { last_activity_time = now }

-- A round of updateIdleTime in which it receives a tick; the time it shows is that since the last
-- activity.
unfoldable pub receive_tick : ℕ → Idle → Idle
receive_tick now s = record s { idle_time = now - s.last_activity_time }

-- A round in which it receives from the closed channel.
unfoldable pub receive_stop : Idle → Idle
receive_stop s = record s { running = false }

-- What may happen next, at a time.
pub data Step : Idle → Idle → Type 0 where
  stops : {s t : Idle} → stop s ≡ ok t → Step s t
  updates : {s : Idle} (now : ℕ) → Step s (update_activity now s)
  ticks : {s : Idle} (now : ℕ) → s.running ≡ true → Step s (receive_tick now s)
  ends : {s : Idle} → s.running ≡ true → s.closed ≡ true → Step s (receive_stop s)

pub data Steps (s : Idle) : Idle → Type 0 where
  here : Steps s s
  next : {t u : Idle} → Steps s t → Step t u → Steps s u
