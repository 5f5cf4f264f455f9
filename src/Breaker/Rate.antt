-- ===== src/Breaker/Rate.antt =====
-- src/resilience/circuit-breaker/state-machine.ts: the breaker that opens on a failure rate. The
-- rate is compared exactly; the rounding of floats is not modelled.
use queue_forge.Breaker.State.{open_circuit, half_open, closed, CircuitState}
use queue_forge.Base.{Bool, arith, if◌then◌else◌, leb, suc, ℕ, ◌&&◌, ◌*◌, ◌+◌, ◌<◌, ◌≡◌, ◌≤◌, ◌⊎◌}
use queue_forge.Breaker.Circuit.{lets_through}

pub record Machine : Type 0 where
  pub threshold : ℕ
  pub timeout_ms : ℕ
  pub volume_threshold : ℕ
  pub state : CircuitState
  pub last_change : ℕ
  pub failure_count : ℕ
  pub success_count : ℕ

unfoldable pub make : ℕ → ℕ → ℕ → ℕ → Machine
make now threshold timeout volume = record {
  threshold = threshold;
  timeout_ms = timeout;
  volume_threshold = volume;
  state = closed;
  last_change = now;
  failure_count = 0;
  success_count = 0;
}

transition_to : ℕ → CircuitState → Machine → Machine
transition_to now target m = record m {
  state = target;
  last_change = now;
  failure_count = 0;
  success_count = 0;
}

wake : ℕ → CircuitState → Machine → Machine
unfolding transition_to
wake now open_circuit m =
    if leb (m.last_change + m.timeout_ms) now then transition_to now half_open m else m
wake now _ m = m

unfoldable pub get_state : ℕ → Machine → Machine × CircuitState
unfolding wake
get_state now m = let m' = wake now m.state m in (m', m'.state)

succeed_in : ℕ → CircuitState → Machine → Machine
unfolding transition_to
succeed_in now half_open m =
    transition_to now closed (record m { success_count = suc m.success_count })
succeed_in now closed m = record m { success_count = suc m.success_count }
succeed_in now open_circuit m = m

unfoldable pub record_success : ℕ → Machine → Machine
unfolding get_state succeed_in
record_success now m = let (m', state) = get_state now m in succeed_in now state m'

-- Enough calls, and `failures / total * 100 >= threshold`.
trips : Machine → Bool
trips m =
    leb m.volume_threshold (m.success_count + m.failure_count)
    && leb (m.threshold * (m.success_count + m.failure_count)) (m.failure_count * 100)

fail_in : ℕ → CircuitState → Machine → Machine
unfolding transition_to trips
fail_in now closed m = if trips m then transition_to now open_circuit m else m
fail_in now half_open m = transition_to now open_circuit m
fail_in now open_circuit m = m

unfoldable pub record_failure : ℕ → Machine → Machine
unfolding get_state fail_in
record_failure now m =
    let (m', state) = get_state now m in
    fail_in now state (record m' { failure_count = suc m'.failure_count })

unfoldable can_attempt : ℕ → Machine → Machine × Bool
unfolding get_state
can_attempt now m = let (m', state) = get_state now m in (m', lets_through state)

-- A closed machine opens at a failure when enough calls were counted, this one included, and the
-- failures among them reach the threshold's percentage; it then counts anew. Otherwise it only
-- counts the failure.
record_failure_closed :
    (now : ℕ) (m : Machine)
    → m.state ≡ closed
    → let total = suc (m.success_count + m.failure_count) in
      let m' = record_failure now m in
      ((m.volume_threshold ≤ total) × (m.threshold * total ≤ suc m.failure_count * 100)
        → (m'.state ≡ open_circuit)
          × (m'.last_change ≡ now)
          × (m'.failure_count ≡ 0)
          × (m'.success_count ≡ 0))
      × ((total < m.volume_threshold) ⊎ (suc m.failure_count * 100 < m.threshold * total)
          → m' ≡ record m { failure_count = suc m.failure_count })
unfolding record_failure
record_failure_closed now m s =
    let e : m.success_count + suc m.failure_count ≡ suc (m.success_count + m.failure_count) =
      omega arith in
    (λ h. (ground arith, ground arith, ground arith, ground arith), λ h. ground arith)

-- One call in the half-open state decides: a success closes the machine and a failure opens it
-- again, and both counts are cleared.
half_open_decides :
    (now : ℕ) (m : Machine)
    → m.state ≡ half_open
    → ((record_success now m).state ≡ closed)
      × ((record_failure now m).state ≡ open_circuit)
      × ((record_success now m).failure_count ≡ 0)
      × ((record_failure now m).failure_count ≡ 0)
unfolding record_success record_failure
half_open_decides now m s = (ground arith, ground arith, ground arith, ground arith)
