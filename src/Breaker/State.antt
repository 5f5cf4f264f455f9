-- ===== src/Breaker/State.antt =====
-- src/resilience/circuit-breaker/circuit-breaker-state.ts and circuit-breaker-config.ts.
use queue_forge.Base.{Bool, Option, false, leb, none, or_else, some, true, ℕ, ◌+◌}

pub data CircuitState : Type 0 where
  closed open_circuit half_open : CircuitState

-- CircuitBreakerState: a snapshot. Counters are natural numbers, so `Math.max(0, ·)` keeps them.
pub record Snapshot : Type 0 where
  pub state : CircuitState
  pub opened_at : Option ℕ
  pub failure_count : ℕ
  pub success_count : ℕ

-- `now - opened >= timeout`, where the clock may stand before `opened`.
reset_due : ℕ → ℕ → Option ℕ → Bool
reset_due now timeout none = false
reset_due now timeout (some opened) = leb (opened + timeout) now

attempt_reset : ℕ → ℕ → CircuitState → Option ℕ → Bool
unfolding reset_due
attempt_reset now timeout half_open opened = true
attempt_reset now timeout closed opened = false
attempt_reset now timeout open_circuit opened = reset_due now timeout opened

unfoldable pub can_attempt_reset : ℕ → ℕ → Snapshot → Bool
unfolding attempt_reset
can_attempt_reset now timeout s = attempt_reset now timeout s.state s.opened_at

pub record Config : Type 0 where
  pub threshold : ℕ
  pub timeout : ℕ
  pub monitoring_period : ℕ
  pub rolling_count_timeout : ℕ
  pub success_threshold : ℕ
  pub half_open_timeout : ℕ

-- `Partial<CircuitBreakerConfig>`.
pub record Overrides : Type 0 where
  pub threshold : Option ℕ
  pub timeout : Option ℕ
  pub monitoring_period : Option ℕ
  pub rolling_count_timeout : Option ℕ
  pub success_threshold : Option ℕ
  pub half_open_timeout : Option ℕ

unfoldable pub create_default_config : Overrides → Config
create_default_config o = record {
  threshold = or_else o.threshold 5;
  timeout = or_else o.timeout 60000;
  monitoring_period = or_else o.monitoring_period 120000;
  rolling_count_timeout = or_else o.rolling_count_timeout 10000;
  success_threshold = or_else o.success_threshold 2;
  half_open_timeout = or_else o.half_open_timeout 30000;
}
