-- ===== src/Examples/Places.antt =====
-- Destinations and stored deliveries.
use queue_forge.Base.{
  [], List, Text, same_codes, codes, false, none, refl, some, true, ◌↔◌, ◌∷◌, ◌≡◌,
}
use queue_forge.Worker.Machine.{move_to_dead_letter_queue}
use queue_forge.Repository.Deliveries.Requests.{methods, carried_requests, carried}
use queue_forge.Repository.Deliveries.{find_by_id, Row}
use queue_forge.Delivery.Strategy.{fixed, Strategy}
use queue_forge.Destination.Types.{webhook, queue}
use queue_forge.Base.Maps.{find}
use queue_forge.Repository.Destinations.{no_change, matches, Row as Stored}
use queue_forge.Repository.Destinations.Endpoints.{
  Act, create_row, change, set_threshold, toggle, act_all, Sound, act_all-Sound,
}
use queue_forge.Repository.Destinations.Matching.{matches-matches_event_filter}
use queue_forge.Destination.Entity.Laws.{
  AllHold, restore-call_all, sets_threshold, enables, call_all, params, IsValid,
}
use queue_forge.Destination.Entity.{
  is_endpoint, construct, restore, matches_event_filter, Value, Fields, text, Destination,
}
use queue_forge.Delivery.Status.{processing}

abbrev fixed_delay : Strategy
fixed_delay = record {
  type = fixed;
  config = record {
    initial_delay_ms = 1000;
    max_delay_ms = 1000;
    jitter_factor = record { num = 0; den = 1 };
    max_retries = some 5;
  };
}

abbrev billing : Destination
billing = record {
  id = codes "x1";
  type = webhook;
  endpoint = codes "https://x";
  event_filters = some ((codes "agentId", text (codes "a1")) ∷ []);
  retry_strategy = fixed_delay;
  circuit_breaker_threshold = 5;
  timeout = 30000;
  enabled = true;
  metadata = [];
  created_at = 10;
  updated_at = 10;
  deleted_at = none;
}

restore-call_all_example :
    let e = call_all ((20, sets_threshold 0) ∷ (30, enables false) ∷ []) billing in
    IsValid e × (restore 99 (params e) ≡ some e)
unfolding construct is_endpoint
restore-call_all_example =
    restore-call_all 99 billing billing ((20, sets_threshold 0) ∷ (30, enables false) ∷ []) refl

abbrev stored : Stored
stored = record {
  type = webhook;
  endpoint = codes "https://a.b";
  event_filters = billing.event_filters;
  threshold = 5;
  enabled = true;
}

abbrev acts : List Act
acts =
    create_row (codes "x1") stored
    ∷ change (codes "x1") (record no_change { type = some queue; endpoint = some (codes "jobs") })
    ∷ set_threshold (codes "x1") 0
    ∷ toggle (codes "x1") false
    ∷ []

act_all-Sound_example : Sound (act_all acts [])
unfolding Sound find
act_all-Sound_example = act_all-Sound acts [] (tt, (refl, (tt, (tt, tt)))) (λ id r h. cc)

abbrev event : Fields
event = (codes "agentId", text (codes "a1")) ∷ (codes "lang", text (codes "en")) ∷ []

matches-matches_event_filter_example :
    (stored.event_filters ≡ none
      → (matches event stored ≡ true) × (matches_event_filter event billing ≡ true))
    × ((filters : Fields)
        → stored.event_filters ≡ some filters
        → ((matches event stored ≡ true) ↔ AllHold event filters)
          × ((matches_event_filter event billing ≡ true) ↔ AllHold filters event))
    × ((k j : Text) (v w : Value)
        → stored.event_filters ≡ some ((k, v) ∷ [])
        → find k event ≡ some v
        → find j event ≡ some w
        → same_codes k j ≡ false
        → (matches_event_filter event billing ≡ true) × (matches event stored ≡ false))
matches-matches_event_filter_example = matches-matches_event_filter event stored billing refl

abbrev working : Row
working = record {
  id = codes "d1";
  task_result_id = codes "t1";
  destination_id = codes "x1";
  status = processing;
  retry_count = 2;
  next_retry_at = none;
  completed_at = none;
  last_error = none;
  error_category = none;
  updated_at = 50;
  deleted_at = none;
}

carried_requests_example :
    carried
      (move_to_dead_letter_queue methods (some (codes "PROCESSING")))
      (codes "d1")
      (working ∷ [])
    ≡ none
unfolding find_by_id
carried_requests_example =
    (carried_requests (codes "d1") 100 5000 (codes "gone") (working ∷ []) working refl).2
