-- ===== src/Examples/Retries.antt =====
-- Retries within one call.
use queue_forge.Retry.Executor.Laws.{execute_settles, IsCounted, IsSettled}
use queue_forge.Retry.Metrics.{Metrics}
use queue_forge.Base.Ratios.{Ratio}
use queue_forge.Retry.Policy.{Policy}
use queue_forge.Retry.Executor.{returned, threw, execute, Round, Problem}
use queue_forge.Base.{Bool, Text, [], arith, codes, none, suc, true, zero, ℕ, ◌∷◌}

abbrev always : Problem Text → Bool
always e = true

abbrev policy : Policy (Problem Text)
policy = record {
  max_attempts = 3;
  strategy = codes "FIXED";
  timeout = 0;
  predicates = always ∷ [];
}

abbrev half : Ratio
half = record { num = 1; den = 2 }

abbrev zero_counts : Metrics
zero_counts = record {
  total_attempts = 0;
  successful_attempts = 0;
  failed_attempts = 0;
  first_attempt_successes = 0;
  retried_successes = 0;
  max_retries_exceeded = 0;
  total_delay_ms = 0;
}

-- The first attempt throws, and every other returns 7.
abbrev script : ℕ → Round ℕ Text
script (suc zero) = record { begins = 0; ran = threw (codes "reset"); ends = 5; draw = half }
script _ = record { begins = 10; ran = returned 7; ends = 15; draw = half }

execute_settles_example :
    let (m', result) = execute policy script none zero_counts in
    IsSettled result × IsCounted 3 zero_counts m'
execute_settles_example = execute_settles policy script none zero_counts (omega arith)
