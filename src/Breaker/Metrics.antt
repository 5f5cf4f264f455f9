-- ===== src/Breaker/Metrics.antt =====
-- src/resilience/circuit-breaker/circuit-breaker-metrics.ts.
use queue_forge.Base.{Option, none, some, suc, ℕ}
use queue_forge.Breaker.State.{CircuitState, closed, open_circuit, half_open}

pub record Metrics : Type 0 where
  pub total_calls : ℕ
  pub successful_calls : ℕ
  pub failed_calls : ℕ
  pub rejected_calls : ℕ
  pub state_transitions : ℕ
  pub closed_transitions : ℕ
  pub open_transitions : ℕ
  pub half_open_transitions : ℕ
  pub last_transition : Option ℕ

unfoldable pub reset : Metrics
reset = record {
  total_calls = 0;
  successful_calls = 0;
  failed_calls = 0;
  rejected_calls = 0;
  state_transitions = 0;
  closed_transitions = 0;
  open_transitions = 0;
  half_open_transitions = 0;
  last_transition = none;
}

unfoldable pub record_call : Metrics → Metrics
record_call m = record m { total_calls = suc m.total_calls }

unfoldable pub record_success : Metrics → Metrics
record_success m = record m { successful_calls = suc m.successful_calls }

unfoldable pub record_failure : Metrics → Metrics
record_failure m = record m { failed_calls = suc m.failed_calls }

unfoldable pub record_rejection : Metrics → Metrics
record_rejection m = record m { rejected_calls = suc m.rejected_calls }

by_target : CircuitState → Metrics → Metrics
by_target closed m = record m { closed_transitions = suc m.closed_transitions }
by_target open_circuit m = record m { open_transitions = suc m.open_transitions }
by_target half_open m = record m { half_open_transitions = suc m.half_open_transitions }

unfoldable pub record_state_transition : ℕ → CircuitState → Metrics → Metrics
unfolding by_target
record_state_transition now target m =
    by_target target
      (record m { state_transitions = suc m.state_transitions; last_transition = some now })
