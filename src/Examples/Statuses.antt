-- ===== src/Examples/Statuses.antt =====
-- Delays of strategies.
use queue_forge.Base.Int.{pos}
use queue_forge.Delivery.Strategy.Laws.{calculate_delay_bounds}
use queue_forge.Delivery.Strategy.{exponential, Strategy, RawConfig}
use queue_forge.Base.Ratios.{Ratio}
use queue_forge.Base.{codes, none, refl, ◌≤◌}
use queue_forge.Delivery.Strategy

abbrev half : Ratio
half = record { num = 1; den = 2 }

abbrev raw_settings : RawConfig
raw_settings = record {
  initial_delay_ms = pos 1000;
  max_delay_ms = pos 60000;
  jitter_num = pos 1;
  jitter_den = 10;
  max_retries = none;
}

abbrev doubling : Strategy
doubling = record {
  type = exponential;
  config = record {
    initial_delay_ms = 1000;
    max_delay_ms = 60000;
    jitter_factor = record { num = 1; den = 10 };
    max_retries = none;
  };
}

calculate_delay_bounds_example :
    (1000 ≤ Strategy.calculate_delay doubling 3 half)
    × (Strategy.calculate_delay doubling 3 half ≤ 60000)
unfolding Strategy.make
calculate_delay_bounds_example =
    calculate_delay_bounds (codes "exponential") raw_settings doubling 3 half refl
