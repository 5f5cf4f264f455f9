-- ===== src/Examples/Services.antt =====
-- The application services on single deliveries and results.
use queue_forge.Security.Headers.{trim}
use queue_forge.Base.Int.{pos}
use queue_forge.Base.Maps.{find-put, put, find}
use queue_forge.Base.{
  List, Option, Text, [], arith, codes, false, if◌then◌else◌, ltb, lt→ltb, none, refl, same_codes,
  same_codes_refl, some, true, ℕ, ◌*◌, ◌+◌, ◌<◌, ◌∷◌, ◌≡◌, ◌≤◌,
}
use queue_forge.Application.Ingest.Routes.{ingest_routes}
use queue_forge.Application.Ingest.Once.{
  visit_all, ingest_once, Event, goes_on, AllApart, AllWithin, IsApart, visit_of,
}
use queue_forge.Application.ProcessDelivery.Laws.{process_delivery_branches}
use queue_forge.Application.ProcessDelivery.{
  is_retryable, response_status, success, response, process_delivery,
}
use queue_forge.Application.RecoverStale.{rescue}
use queue_forge.Application.RecoverStale.Laws.{
  rescue_branches, crash_all_never_buries, crash_all, Crash,
}
use queue_forge.Application.Ingest.{
  idempotency_key, ask, answer_with, take_in, take_in_until, save_all, event_of, create_all, ingest,
  Stores, Draw, Cache, Response, Request,
}
use queue_forge.Delivery.Strategy.{fixed, Strategy}
use queue_forge.Destination.Types.{webhook}
use queue_forge.Destination.Entity.{
  same_value, all_match, matches_event_filter, number, text, Destination,
}
use queue_forge.Delivery.Status.{scheduled_retry, pending}
use queue_forge.Delivery.Entity.{create, Delivery}

abbrev new : Delivery
new = record {
  id = codes "d1";
  task_result_id = codes "t1";
  destination_id = codes "x1";
  status = pending;
  retry_count = 0;
  next_retry_at = none;
  last_attempt_at = none;
  last_error = none;
  completed_at = none;
  created_at = 10;
  updated_at = 10;
  attempts = [];
  deleted_at = none;
  domain_events = [];
}

abbrev waiting_again : Delivery
waiting_again = record new { status = scheduled_retry; retry_count = 4 }

abbrev crash_at : ℕ → Crash
crash_at now = record { taken = now; found = now + 40000 }

crash_all_never_buries_example :
    let d = crash_all (λ j. true) (λ e. true) (crash_at 20 ∷ crash_at 90000 ∷ []) waiting_again in
    (d.status ≡ scheduled_retry) × (d.retry_count ≤ 4)
crash_all_never_buries_example =
    crash_all_never_buries (λ j. true) (λ e. true) (crash_at 20 ∷ crash_at 90000 ∷ []) waiting_again
      (omega arith) refl

rescue_branches_example : (rescue 50 (λ j. false) (λ e. true) new).delivery.status ≡ scheduled_retry
rescue_branches_example = ((rescue_branches 50 (λ j. false) (λ e. true) new).0 (omega arith)).0

process_delivery_branches_example :
    (process_delivery 50 7 true (response (some 503)) new).delivery.next_retry_at ≡ some 1050
unfolding response_status success is_retryable
process_delivery_branches_example =
    (((process_delivery_branches 50 7 (response (some 503)) new).1 refl).4 refl).1

-- A cache as a list of what was set and until when.
abbrev Kept : Type 0
Kept = List (Text × (Response × ℕ))

still_kept : ℕ → Option (Response × ℕ) → Option Response
still_kept now none = none
still_kept now (some (r, until)) = if ltb now until then some r else none

cache_get : ℕ → Text → Kept → Option Response
cache_get now key s = still_kept now (find key s)

cache_setex : ℕ → Text → ℕ → Response → Kept → Kept
cache_setex now key seconds r s = put key (r, now + seconds * 1000) s

cache_get-setex :
    (now seconds t : ℕ) (key : Text) (r : Response) (s : Kept)
    → now ≤ t
    → t < now + seconds * 1000
    → cache_get t key (cache_setex now key seconds r s) ≡ some r
unfolding cache_get cache_setex still_kept
cache_get-setex now seconds t key r s a b =
    rw (find-put, same_codes_refl, lt→ltb t (now + seconds * 1000) b) refl

cache_get-setex_other :
    (now seconds t : ℕ) (key other : Text) (r : Response) (s : Kept)
    → same_codes key other ≡ false
    → cache_get t other (cache_setex now key seconds r s) ≡ cache_get t other s
unfolding cache_get cache_setex
cache_get-setex_other now seconds t key other r s d = rw (find-put, d) refl

abbrev kept : Cache
kept = record {
  Store = Kept;
  get = cache_get;
  setex = cache_setex;
  get-setex = cache_get-setex;
  get-setex_other = cache_get-setex_other;
}

abbrev fixed_delay : Strategy
fixed_delay = record {
  type = fixed;
  config = record {
    initial_delay_ms = 1000;
    max_delay_ms = 1000;
    jitter_factor = record { num = 0; den = 1 };
    max_retries = some 5;
  };
}

abbrev billing : Destination
billing = record {
  id = codes "x1";
  type = webhook;
  endpoint = codes "https://x";
  event_filters = some ((codes "agentId", text (codes "a1")) ∷ []);
  retry_strategy = fixed_delay;
  circuit_breaker_threshold = 5;
  timeout = 30000;
  enabled = true;
  metadata = [];
  created_at = 10;
  updated_at = 10;
  deleted_at = none;
}

abbrev result : Request
result = record {
  email_id = codes "m@x.org";
  agent_id = codes "a1";
  agent_version = codes "1.0.0";
  confidence_score = number (pos 1);
  result_payload = [];
}

abbrev drawn : ℕ → Draw kept
drawn now = record {
  now = now;
  result_id = codes "t1";
  delivery_ids = λ n. codes "d1";
  fails_after = none;
}

abbrev nothing_yet : Stores kept
nothing_yet = record { cache = []; results = []; deliveries = []; jobs = [] }

ingest_routes_example :
    (ingest kept (drawn 100) true result (billing ∷ []) nothing_yet).0.results ≡ codes "t1" ∷ []
unfolding cache_get still_kept find
ingest_routes_example =
    (ingest_routes kept (drawn 100) result (billing ∷ []) nothing_yet refl refl refl (λ k. refl)
      (refl, tt)).0

abbrev first_answer : Response
first_answer = record { result_id = codes "t1"; delivery_count = 1; timestamp = 100 }

-- A request of another agent, that had asked the cache before and goes on after the first one.
abbrev of_another : Event kept
of_another =
    goes_on
      (record {
        draw = drawn 200;
        accepted = true;
        request = record result { agent_id = codes "a2" };
        active = billing ∷ [];
      })
      none

-- The first request asked at 90 and goes on at 100.
first_answered :
    (answer_with kept (drawn 100) result (billing ∷ []) none nothing_yet).1 ≡ some first_answer
unfolding answer_with take_in take_in_until save_all create_all create matches_event_filter event_of
    same_value all_match find trim
first_answered = refl

ingest_once_example :
    let first =
      (answer_with kept
        (drawn 100)
        result
        (billing ∷ [])
        (ask kept (drawn 90) result nothing_yet)
        nothing_yet).0 in
    let y = visit_all kept (of_another ∷ []) first in
    ingest kept (drawn 5000) true result [] y ≡ (y, some first_answer)
unfolding cache_get still_kept find ask AllApart AllWithin IsApart visit_of idempotency_key
ingest_once_example =
    ingest_once kept (drawn 90) (drawn 100) result (billing ∷ []) nothing_yet nothing_yet
      first_answer (of_another ∷ []) result [] refl first_answered (refl, tt)
      ((omega arith, omega arith), tt) (drawn 5000) (omega arith) (omega arith) refl refl refl
