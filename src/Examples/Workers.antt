-- ===== src/Examples/Workers.antt =====
-- The worker on single deliveries.
use queue_forge.Worker.Executor.Slot.{execute_restores_slot}
use queue_forge.Worker.Processor.Statistics.{Reaches, statistics_agree, idle, ends, begins}
use queue_forge.Worker.Executor.Refused.{execute_open, is_open_for, execute_final}
use queue_forge.Worker.Executor.Branches.{answer_outcome, answer-unburied}
use queue_forge.Base.{[], arith, codes, none, refl, some, ◌+◌, ◌∷◌, ◌≡◌, ◌≤◌}
use queue_forge.Worker.Processor.{average_latency, end_job, begin_job, fresh}
use queue_forge.Worker.Machine.{reference_error}
use queue_forge.Base.Maps.{find}
use queue_forge.Delivery.Status.{pending, scheduled_retry, completed, processing, Status}
use queue_forge.Worker.Classifier.{classify, Fault}
use queue_forge.Breaker.State.{can_attempt_reset, create_default_config, open_circuit}
use queue_forge.Breaker.Circuit.{get_state}
use queue_forge.Breaker.Registry.{get_breaker, is_open, no_overrides, empty}
use queue_forge.Worker.Executor.Moves.{every_method}
use queue_forge.Worker.Executor.{
  times_out, pool_name, broken, escapes, returns, delivered, threw, refused, execute, answer, World,
  Call,
}
use queue_forge.Bulkhead.Barrier.{Bulkhead}
use queue_forge.Bulkhead.Manager.{Settings}
use queue_forge.Breaker.Metrics
use queue_forge.Bulkhead.Barrier

abbrev no_settings : Settings
no_settings = record { max_concurrent = none; max_queue_size = none; timeout = none }

abbrev call : Call
call = record {
  now = 100;
  latency = 7;
  destination_id = codes "x1";
  destination_type = codes "WEBHOOK";
  ticket = 1;
  wait = times_out;
  methods = every_method;
  burial = none;
}

abbrev idle_pool : Bulkhead
idle_pool = (Barrier.make none none none)

abbrev world : Status → World
world s = record {
  registry = empty no_overrides;
  manager = record { settings = no_settings; bulkheads = (codes "webhook", idle_pool) ∷ [] };
  status = s;
  attempts = [];
}

abbrev gone : Fault
gone = record {
  text = codes "gone";
  name = none;
  code = none;
  status_code = some 503;
  status = none;
  response_status = none;
}

answer_outcome_example :
    (answer call (refused (some 503) gone) (world processing)).0.status ≡ scheduled_retry
unfolding classify
answer_outcome_example =
    (answer_outcome call (refused (some 503) gone) (world processing) refl (λ h. refl) refl).0

abbrev unburying : Call
unburying = record call { burial = some (codes "Database operation failed") }

answer-unburied_example :
    (answer unburying (refused (some 404) gone) (world processing)).0.status ≡ scheduled_retry
unfolding classify
answer-unburied_example =
    (answer-unburied unburying (refused (some 404) gone) (codes "Database operation failed")
      (world processing) refl refl refl refl).0

execute_restores_slot_example :
    find (codes "webhook") (execute call (threw gone) (world processing)).0.manager.bulkheads
    ≡ some idle_pool
unfolding pool_name find Barrier.make
execute_restores_slot_example =
    (execute_restores_slot call (threw gone) (world processing) idle_pool refl refl (omega arith)
        (omega arith)).0
      (λ q. refl)

execute_final_example :
    (execute call (refused (some 503) gone) (world completed)).0.status ≡ completed
execute_final_example = (execute_final call (refused (some 503) gone) (world completed) refl refl).0

abbrev opened : World
opened = record (world pending) {
  registry = record {
    default_config = no_overrides;
    breakers =
        (
          codes "x1",
          record {
            destination_id = codes "x1";
            config = create_default_config no_overrides;
            metrics = Metrics.reset;
            snapshot = record {
              state = open_circuit;
              opened_at = some 90;
              failure_count = 5;
              success_count = 0;
            };
          },
        )
        ∷ [];
  };
}

execute_open_example :
    let (w', e) = execute call (delivered none) opened in
    (w'.manager ≡ opened.manager)
    × (w'.attempts ≡ [])
    × (e ≡ returns broken)
    × (w'.status ≡ processing)
unfolding is_open_for is_open get_breaker create_default_config find get_state can_attempt_reset
execute_open_example = execute_open call (delivered none) opened refl refl

one_ended : Reaches 50 0 1 (end_job 30 (escapes reference_error) (begin_job fresh))
one_ended = ends 30 (escapes reference_error) (omega arith) (begins idle)

statistics_agree_example :
    ((end_job 30 (escapes reference_error) (begin_job fresh)).active_jobs ≡ 0)
    × ((end_job 30 (escapes reference_error) (begin_job fresh)).jobs_processed
          + (end_job 30 (escapes reference_error) (begin_job fresh)).jobs_failed
        ≡ 1)
    × (average_latency (end_job 30 (escapes reference_error) (begin_job fresh)) ≤ 50)
statistics_agree_example = statistics_agree one_ended
