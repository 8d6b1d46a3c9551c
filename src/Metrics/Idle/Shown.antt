-- ===== src/Metrics/Idle/Shown.antt =====
-- Whether the idle time goes on being shown.
use vllm_chill.Prelude.{ℕ, true, false, panic, arith, ◌≡◌, refl, ◌∙◌}
use vllm_chill.Metrics.Idle.{
  Idle, new_recorder, stop, update_activity, receive_tick, receive_stop, Step, Steps, stops,
  updates, ticks, ends, here, next,
}

-- The goroutine only returns once the channel is closed.
Step-open :
    {s t : Idle}
    → Step s t
    → (s.running ≡ false → s.closed ≡ true)
    → t.running ≡ false
    → t.closed ≡ true
unfolding stop update_activity receive_tick receive_stop
Step-open {s} (stops e) h gone = ground arith
Step-open (updates now) h gone = h gone
Step-open (ticks now running) h gone = h gone
Step-open (ends running closed) h gone = closed

Steps-open : (now : ℕ) {t : Idle} → Steps (new_recorder now) t → t.running ≡ false → t.closed ≡ true
unfolding new_recorder
Steps-open now here gone = cc
Steps-open now (next before step) gone = Step-open step (Steps-open now before) gone

Step-final :
    {s t : Idle}
    → Step s t
    → s.running ≡ false
    → s.closed ≡ true
    → (t.running ≡ false) × (t.closed ≡ true) × (t.idle_time ≡ s.idle_time)
unfolding stop update_activity receive_tick receive_stop
Step-final {s} (stops e) gone closed = ground arith
Step-final (updates now) gone closed = (gone, closed, refl)
Step-final (ticks now running) gone closed = cc
Step-final (ends running closed') gone closed = cc

Steps-final :
    {s t : Idle}
    → s.running ≡ false
    → s.closed ≡ true
    → Steps s t
    → (t.running ≡ false) × (t.closed ≡ true) × (t.idle_time ≡ s.idle_time)
Steps-final gone closed here = (gone, closed, refl)
Steps-final gone closed (next before step) =
    let (gone', closed', same) = Steps-final gone closed before in
    let (gone'', closed'', same') = Step-final step gone' closed' in
    (gone'', closed'', same' ∙ same)

-- The goroutine of a recorder only returns after Stop was called. Once it has, whatever happens, the
-- idle time that is shown does not change, also not with an activity; and another call of Stop
-- panics.
pub returned_is_final :
    (now : ℕ) {s t : Idle}
    → Steps (new_recorder now) s
    → s.running ≡ false
    → Steps s t
    → (s.closed ≡ true) × (t.idle_time ≡ s.idle_time) × (stop t ≡ panic)
unfolding stop
returned_is_final now before gone after =
    let closed = Steps-open now before gone in
    let (_, closed', same) = Steps-final gone closed after in
    (closed, same, ground (arith, closed'))
