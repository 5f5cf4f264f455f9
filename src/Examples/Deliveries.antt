-- ===== src/Examples/Deliveries.antt =====
-- Deliveries that fail, wait and end.
use queue_forge.Application.HandleFailure.Budget.{handle_all_never_buries, handle_all}
use queue_forge.Application.HandleFailure.Budget.{Report}
use queue_forge.Application.HandleFailure.{no_hint, thrown, Caught}
use queue_forge.Delivery.Failure
use queue_forge.Delivery.Entity
use queue_forge.Application.HandleFailure
use queue_forge.Delivery.Entity.Lifecycle.{
  run-create-IsConsistent, completes, run, fails, guarded-transition, IsConsistent, processes, step,
  Call,
}
use queue_forge.Delivery.Status.{scheduled_retry, failed_dlq, get_value, completed, pending}
use queue_forge.Application.HandleFailure
use queue_forge.Worker.Transitions.{is_valid_state_transition}
use queue_forge.Delivery.Entity.Failing.{rounds_budget, rounds, Round}
use queue_forge.Delivery.Failure.{network, Failure}
use queue_forge.Delivery.Entity.{failure, no_plan, Delivery}
use queue_forge.Base.Ratios.{Ratio}
use queue_forge.Base.{
  List, [], arith, codes, false, inl, is_some, none, refl, some, true, ℕ, ◌∷◌, ◌≡◌, ◌≤◌,
}

abbrev half : Ratio
half = record { num = 1; den = 2 }

abbrev new : Delivery
new = record {
  id = codes "d1";
  task_result_id = codes "t1";
  destination_id = codes "x1";
  status = pending;
  retry_count = 0;
  next_retry_at = none;
  last_attempt_at = none;
  last_error = none;
  completed_at = none;
  created_at = 10;
  updated_at = 10;
  attempts = [];
  deleted_at = none;
  domain_events = [];
}

abbrev finished : Delivery
finished = record new { status = completed; completed_at = some 50 }

abbrev reset_by_peer : Failure
reset_by_peer = record {
  category = network;
  message = codes "ECONNRESET";
  status_code = none;
  delivery_id = none;
}

abbrev failing : ℕ → Round
failing now = record { now = now; draw = half; error = reset_by_peer; plan = no_plan }

abbrev three_rounds : List Round
three_rounds = failing 20 ∷ failing 30 ∷ failing 40 ∷ []

rounds_budget_example :
    ((rounds 3 three_rounds new).status ≡ failed_dlq)
    × ((rounds 3 three_rounds new).retry_count ≡ 3)
unfolding Failure.is_retryable
rounds_budget_example =
    (rounds_budget 3 three_rounds new (refl, (refl, (refl, tt))) (inl refl) (omega arith)).1
      (omega arith)

abbrev calls : List (ℕ × Call)
calls =
    (20, processes)
    ∷ (30, fails half (failure reset_by_peer) no_plan 5)
    ∷ (40, completes none)
    ∷ (50, processes)
    ∷ (60, completes none)
    ∷ []

run-create-IsConsistent_example : IsConsistent (run calls new)
unfolding Entity.create
run-create-IsConsistent_example =
    run-create-IsConsistent 10 (codes "d1") (codes "t1") (codes "x1") none new calls refl
      (tt, (tt, (tt, (tt, (tt, tt)))))

guarded-transition_example :
    (is_some (step 20 processes finished).1 ≡ true)
    × (false ≡ false → (step 20 processes finished).0 ≡ finished)
    × (false ≡ true
        → is_valid_state_transition
            (get_value completed)
            (get_value (step 20 processes finished).0.status)
          ≡ true)
guarded-transition_example = guarded-transition 20 processes finished tt

abbrev report : ℕ → Report
report now = record { now = now; caught = Caught.failure reset_by_peer; hint = no_hint }

handle_all_never_buries_example :
    ((handle_all (report 20 ∷ report 30 ∷ report 40 ∷ []) new).status ≡ scheduled_retry)
    × ((handle_all (report 20 ∷ report 30 ∷ report 40 ∷ []) new).retry_count ≤ 1)
unfolding HandleFailure.is_retryable Failure.is_retryable thrown
handle_all_never_buries_example =
    handle_all_never_buries (report 20) (report 30 ∷ report 40 ∷ []) new
      ((refl, refl), ((refl, refl), ((refl, refl), tt))) (omega arith)
