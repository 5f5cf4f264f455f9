-- ===== src/Breaker/Circuit/Invariant.antt =====
-- What every call of a breaker keeps.
use queue_forge.Breaker.Metrics
use queue_forge.Breaker.State.{can_attempt_reset, Overrides, open_circuit, half_open, closed}
use queue_forge.Breaker.Circuit.{reset, can_execute, record_failure, record_success, make, Breaker}
use queue_forge.Base.{List, Text, [], arith, is_some, max, true, ℕ, ◌+◌, ◌<◌, ◌↔◌, ◌∷◌, ◌≡◌}

pub data Call : Type 0 where
  succeeds fails asks resets : Call

unfoldable pub step : ℕ × Call → Breaker → Breaker
step (now, succeeds) b = record_success now b
step (now, fails) b = record_failure now b
step (now, asks) b = (can_execute now b).0
step (now, resets) b = reset now b

unfoldable pub run : List (ℕ × Call) → Breaker → Breaker
run [] b = b
run (c ∷ cs) b = run cs (step c b)

pub record Inv (b : Breaker) : Type 0 where
  pub closed_below : b.snapshot.state ≡ closed → b.snapshot.failure_count < max 1 b.config.threshold
  pub closed_plain : b.snapshot.state ≡ closed → b.snapshot.success_count ≡ 0
  pub half_below :
      b.snapshot.state ≡ half_open → b.snapshot.success_count < max 1 b.config.success_threshold
  pub half_plain : b.snapshot.state ≡ half_open → b.snapshot.failure_count ≡ 0
  pub opened : (b.snapshot.state ≡ open_circuit) ↔ (is_some b.snapshot.opened_at ≡ true)
  pub transitions :
      b.metrics.state_transitions
      ≡ b.metrics.closed_transitions + b.metrics.open_transitions + b.metrics.half_open_transitions

make-Inv : (id : Text) (o : Overrides) → Inv (make id o)
unfolding make Metrics.reset
make-Inv id o = ground arith

pub step-Inv : (c : ℕ × Call) (b : Breaker) → Inv b → Inv (step c b)
unfolding step record_success record_failure can_execute reset Metrics.reset Metrics.record_success
    Metrics.record_failure Metrics.record_state_transition can_attempt_reset
step-Inv (now, succeeds) b v = ground arith
step-Inv (now, fails) b v = ground arith
step-Inv (now, asks) b v = ground arith
step-Inv (now, resets) b v = ground arith

run-Inv : (cs : List (ℕ × Call)) (b : Breaker) → Inv b → Inv (run cs b)
unfolding run
run-Inv [] b v = v
run-Inv (c ∷ cs) b v = run-Inv cs (step c b) (step-Inv c b v)

-- After any calls on a new breaker, whatever its configuration: a closed circuit has counted fewer
-- failures than the threshold, a half-open one fewer successes than its threshold (both at least
-- 1), exactly an open one has the time at which it opened, and the transitions that are counted
-- are the sum of those into each state.
breaker_run-Inv : (id : Text) (o : Overrides) (cs : List (ℕ × Call)) → Inv (run cs (make id o))
breaker_run-Inv id o cs = run-Inv cs (make id o) (make-Inv id o)
