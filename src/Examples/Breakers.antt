-- ===== src/Examples/Breakers.antt =====
-- Circuit breakers.
use queue_forge.Breaker.Circuit.Invariant.{succeeds, asks, fails, run, Call}
use queue_forge.Breaker.Circuit.Automaton.{run-view, limits, react_all, view}
use queue_forge.Breaker.Circuit.{Breaker}
use queue_forge.Breaker.State.{closed}
use queue_forge.Base.{List, [], arith, codes, none, refl, ℕ, ◌∷◌, ◌≡◌}

abbrev fresh : Breaker
fresh = record {
  destination_id = codes "x1";
  config = record {
    threshold = 2;
    timeout = 100;
    monitoring_period = 120000;
    rolling_count_timeout = 10000;
    success_threshold = 2;
    half_open_timeout = 30000;
  };
  metrics = record {
    total_calls = 0;
    successful_calls = 0;
    failed_calls = 0;
    rejected_calls = 0;
    state_transitions = 0;
    closed_transitions = 0;
    open_transitions = 0;
    half_open_transitions = 0;
    last_transition = none;
  };
  snapshot = record { state = closed; opened_at = none; failure_count = 0; success_count = 0 };
}

abbrev history : List (ℕ × Call)
history = (1, fails) ∷ (2, fails) ∷ (50, asks) ∷ (200, succeeds) ∷ (201, succeeds) ∷ []

run-view_example : view (run history fresh) ≡ react_all (limits fresh) history (view fresh)
run-view_example = run-view history fresh (record {
  closed_below = λ h. ground arith;
  closed_plain = λ h. refl;
  half_below = λ h. ground arith;
  half_plain = λ h. refl;
  opened = (λ h. ground arith, λ h. ground arith);
  transitions = refl;
})
