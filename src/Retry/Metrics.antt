-- ===== src/Retry/Metrics.antt =====
-- src/resilience/retry/retry-metrics.ts.
use queue_forge.Base.{if◌then◌else◌, suc, ℕ, ◌+◌, ◌==◌}

pub record Metrics : Type 0 where
  pub total_attempts : ℕ
  pub successful_attempts : ℕ
  pub failed_attempts : ℕ
  pub first_attempt_successes : ℕ
  pub retried_successes : ℕ
  pub max_retries_exceeded : ℕ
  pub total_delay_ms : ℕ

unfoldable pub reset : Metrics
reset = record {
  total_attempts = 0;
  successful_attempts = 0;
  failed_attempts = 0;
  first_attempt_successes = 0;
  retried_successes = 0;
  max_retries_exceeded = 0;
  total_delay_ms = 0;
}

unfoldable pub record_attempt : Metrics → Metrics
record_attempt m = record m { total_attempts = suc m.total_attempts }

unfoldable pub record_success : ℕ → Metrics → Metrics
record_success number m =
    if number == 1
    then record m {
      successful_attempts = suc m.successful_attempts;
      first_attempt_successes = suc m.first_attempt_successes;
    }
    else record m {
      successful_attempts = suc m.successful_attempts;
      retried_successes = suc m.retried_successes;
    }

unfoldable pub record_failure : Metrics → Metrics
record_failure m = record m { failed_attempts = suc m.failed_attempts }

unfoldable pub record_max_retries_exceeded : Metrics → Metrics
record_max_retries_exceeded m = record m { max_retries_exceeded = suc m.max_retries_exceeded }

unfoldable pub record_delay : ℕ → Metrics → Metrics
record_delay ms m = record m { total_delay_ms = m.total_delay_ms + ms }
