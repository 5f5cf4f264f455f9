-- ===== src/Breaker/Circuit.antt =====
-- src/resilience/circuit-breaker/circuit-breaker.ts: the breaker of one destination.
pub mod Invariant
pub mod Automaton
pub mod Protection
use queue_forge.Breaker.Metrics.{Metrics}
use queue_forge.Breaker.State.{
  open_circuit, half_open, create_default_config, Snapshot, closed, can_attempt_reset, Overrides,
  CircuitState, Config,
}
use queue_forge.Base.{
  Bool, Option, Text, false, if◌then◌else◌, leb, ltb, none, some, suc, true, ℕ, ◌&&◌,
}
use queue_forge.Breaker.Metrics

pub record Breaker : Type 0 where
  pub destination_id : Text
  pub config : Config
  pub metrics : Metrics
  pub snapshot : Snapshot

fresh : CircuitState → Option ℕ → Snapshot
fresh state opened = record {
  state = state;
  opened_at = opened;
  failure_count = 0;
  success_count = 0;
}

unfoldable pub make : Text → Overrides → Breaker
unfolding fresh
make id o = record {
  destination_id = id;
  config = create_default_config o;
  metrics = Metrics.reset;
  snapshot = fresh closed none;
}

abbrev pub same_state : CircuitState → CircuitState → Bool
same_state closed closed = true
same_state open_circuit open_circuit = true
same_state half_open half_open = true
same_state _ _ = false

opened_when : ℕ → CircuitState → Option ℕ
opened_when now open_circuit = some now
opened_when now _ = none

transition_to : ℕ → CircuitState → Breaker → Breaker
unfolding fresh opened_when
transition_to now target b = if same_state b.snapshot.state target then b else record b {
  snapshot = fresh target (opened_when now target);
  metrics = Metrics.record_state_transition now target b.metrics;
}

abbrev is_open : CircuitState → Bool
is_open open_circuit = true
is_open _ = false

check_state_transition : ℕ → Breaker → Breaker
unfolding transition_to
check_state_transition now b =
    if is_open b.snapshot.state && can_attempt_reset now b.config.timeout b.snapshot
    then transition_to now half_open b
    else b

-- `getState` moves the breaker on before it answers.
unfoldable pub get_state : ℕ → Breaker → Breaker × CircuitState
unfolding check_state_transition
get_state now b = let b' = check_state_transition now b in (b', b'.snapshot.state)

abbrev pub lets_through : CircuitState → Bool
lets_through open_circuit = false
lets_through _ = true

pub can_execute : ℕ → Breaker → Breaker × Bool
unfolding get_state
can_execute now b = let (b', state) = get_state now b in (b', lets_through state)

succeed_in : ℕ → CircuitState → Breaker → Breaker
unfolding transition_to fresh
succeed_in now half_open b =
    if leb b.config.success_threshold (suc b.snapshot.success_count)
    then transition_to now closed b
    else record b {
      snapshot = record {
        state = half_open;
        opened_at = b.snapshot.opened_at;
        failure_count = 0;
        success_count = suc b.snapshot.success_count;
      };
    }
succeed_in now closed b =
    if ltb 0 b.snapshot.failure_count then record b { snapshot = fresh closed none } else b
succeed_in now open_circuit b = b

unfoldable pub record_success : ℕ → Breaker → Breaker
unfolding get_state succeed_in
record_success now b =
    let (b', state) = get_state now (record b { metrics = Metrics.record_success b.metrics }) in
    succeed_in now state b'

fail_in : ℕ → CircuitState → Breaker → Breaker
unfolding transition_to
fail_in now closed b =
    if leb b.config.threshold (suc b.snapshot.failure_count)
    then transition_to now open_circuit b
    else record b {
      snapshot = record {
        state = closed;
        opened_at = none;
        failure_count = suc b.snapshot.failure_count;
        success_count = 0;
      };
    }
fail_in now half_open b = transition_to now open_circuit b
fail_in now open_circuit b = b

unfoldable pub record_failure : ℕ → Breaker → Breaker
unfolding get_state fail_in
record_failure now b =
    let (b', state) = get_state now (record b { metrics = Metrics.record_failure b.metrics }) in
    fail_in now state b'

unfoldable pub reset : ℕ → Breaker → Breaker
unfolding fresh
reset now b = record b {
  snapshot = fresh closed none;
  metrics =
      (if same_state b.snapshot.state closed
        then Metrics.reset
        else Metrics.record_state_transition now closed Metrics.reset);
}

-- What the protected operation does.
pub data Ran {ℓ} (A : Type ℓ) : Type ℓ where
  returned : A → Ran A
  threw : Text → Ran A

pub data Answer {ℓ} (A : Type ℓ) : Type ℓ where
  answer : A → Answer A
  rethrown : Text → Answer A
  circuit_open : Answer A

settle {ℓ} : {A : Type ℓ} → ℕ → Ran A → Breaker → Breaker × Answer A
settle now (returned a) b = (record_success now b, answer a)
settle now (threw e) b = (record_failure now b, rethrown e)

-- `execute`, which starts at `now` and ends at `later`; `meanwhile` is what other calls do to the
-- breaker while the operation is awaited.
unfoldable pub execute {ℓ} :
    {A : Type ℓ} → ℕ → ℕ → (Breaker → Breaker) → Ran A → Breaker → Breaker × Answer A
unfolding can_execute settle record_success record_failure
execute now later meanwhile ran b =
    let (b', allowed) = can_execute now (record b { metrics = Metrics.record_call b.metrics }) in
    if allowed
    then settle later ran (meanwhile b')
    else (record b' { metrics = Metrics.record_rejection b'.metrics }, circuit_open)
