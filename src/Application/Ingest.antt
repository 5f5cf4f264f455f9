-- ===== src/Application/Ingest.antt =====
-- src/application/services/ingest-result.service.ts: a result is taken in once, and a delivery is
-- made for each destination that it matches. The repositories have `save` and the queue has
-- `enqueueDelivery`; how many of their calls succeed before one fails is an argument. A call is cut
-- after it has asked the cache: `ask` and `answer_with`; whether the validation and the mapper accept the
-- request is an argument, and so are the identifiers that they draw. The cache of
-- src/infrastructure/cache/idempotency-cache.ts is over Redis, an interface with what its
-- documentation says of GET and SETEX. Spans, counters and logs are left out.
pub mod Once
pub mod Routes
use queue_forge.Base.{
  Bool, List, Option, Text, [], codes, false, if◌then◌else◌, keep, length, none, same_codes, some,
  suc, take, ltb, ℕ, ◌*◌, ◌++◌, ◌+◌, ◌-◌, ◌<◌, ◌∷◌, ◌≡◌, ◌≤◌,
}
use queue_forge.Security.Headers.{trim}
use queue_forge.Destination.Entity.{text, matches_event_filter, Value, Fields, Destination}
use queue_forge.Delivery.Entity.{Delivery, create}

pub record Response : Type 0 where
  pub result_id : Text
  pub delivery_count : ℕ
  pub timestamp : ℕ

-- The cache of responses by key, each command at a time; SETEX has seconds.
pub record Cache : Type 1 where
  pub Store : Type 0
  pub get : ℕ → Text → Store → Option Response
  pub setex : ℕ → Text → ℕ → Response → Store → Store
  pub get-setex :
      (now seconds t : ℕ) (key : Text) (r : Response) (s : Store)
      → now ≤ t
      → t < now + seconds * 1000
      → get t key (setex now key seconds r s) ≡ some r
  pub get-setex_other :
      (now seconds t : ℕ) (key other : Text) (r : Response) (s : Store)
      → same_codes key other ≡ false
      → get t other (setex now key seconds r s) ≡ get t other s

pub record Request : Type 0 where
  pub email_id : Text
  pub agent_id : Text
  pub agent_version : Text
  pub confidence_score : Value
  pub result_payload : Fields

pub record Enqueued : Type 0 where
  pub task_result_id : Text
  pub destination_id : Text
  pub attempt : ℕ

unfoldable pub idempotency_key : Request → Text
idempotency_key r =
    codes "idem:result:"
    ++ (r.email_id ++ (codes ":" ++ (r.agent_id ++ (codes ":" ++ r.agent_version))))

-- The event that destinations match, of the values that EmailId and AgentId trim; the payload's fields come last and win.
unfoldable pub event_of : Request → Fields
event_of r =
    r.result_payload
    ++ ((codes "emailId", text (trim r.email_id))
        ∷ (codes "agentId", text (trim r.agent_id))
        ∷ (codes "confidenceScore", r.confidence_score)
        ∷ [])

both : Option Delivery → Option (List Delivery) → Option (List Delivery)
both none o = none
both (some x) none = none
both (some x) (some xs) = some (x ∷ xs)

-- The deliveries for the destinations, each with the identifier that is drawn for it.
unfoldable pub create_all : ℕ → Text → (ℕ → Text) → ℕ → List Destination → Option (List Delivery)
unfolding both
create_all now result fresh n [] = some []
create_all now result fresh n (d ∷ ds) =
    both (create now (fresh n) result d.id none) (create_all now result fresh (suc n) ds)

pub enqueue_all : Text → List Delivery → List Enqueued
enqueue_all result [] = []
enqueue_all result (d ∷ ds) =
    record { task_result_id = result; destination_id = d.destination_id; attempt = 1 }
    ∷ enqueue_all result ds

-- Where the cache is set, the hours of `set` in the service's call, and `ttlHours * 3600`.
abbrev pub cache_seconds : ℕ
cache_seconds = 24 * 3600

module _ (C : Cache) where
  -- What is stored: the cache, the ids of the saved results, the saved deliveries and the queue.
  pub record Stores : Type 0 where
    pub cache : C.Store
    pub results : List Text
    pub deliveries : List Delivery
    pub jobs : List Enqueued

  -- What is drawn: the time, the result's id and the deliveries' ids; and after how many calls of
  -- the repositories and the queue one fails, if any does.
  pub record Draw : Type 0 where
    pub now : ℕ
    pub result_id : Text
    pub delivery_ids : ℕ → Text
    pub fails_after : Option ℕ

  -- A failure lets the error out with what was saved before it: the result, the deliveries, the jobs.
  saved_until : Draw → List Delivery → ℕ → Stores → Stores
  unfolding enqueue_all
  saved_until w ds n s = record s {
    results = s.results ++ take n (w.result_id ∷ []);
    deliveries = s.deliveries ++ take (n - 1) ds;
    jobs = s.jobs ++ take (n - 1 - length ds) (enqueue_all w.result_id ds);
  }

  unfoldable pub save_all : Draw → Request → ℕ → List Delivery → Stores → Stores × Option Response
  unfolding idempotency_key enqueue_all
  save_all w r count ds s =
      let response : Response = record {
        result_id = w.result_id;
        delivery_count = count;
        timestamp = w.now;
      } in
      (
        record {
          cache = C.setex w.now (idempotency_key r) cache_seconds response s.cache;
          results = s.results ++ w.result_id ∷ [];
          deliveries = s.deliveries ++ ds;
          jobs = s.jobs ++ enqueue_all w.result_id ds;
        },
        some response,
      )

  unfoldable pub take_in_until :
      Draw → Request → ℕ → List Delivery → Option ℕ → Stores → Stores × Option Response
  unfolding saved_until save_all
  take_in_until w r count ds none s = save_all w r count ds s
  take_in_until w r count ds (some n) s =
      if ltb n (1 + (length ds + length ds))
      then (saved_until w ds n s, none)
      else save_all w r count ds s

  unfoldable pub take_in :
      Draw → Request → ℕ → Option (List Delivery) → Stores → Stores × Option Response
  unfolding take_in_until
  take_in w r count none s = (s, none)
  take_in w r count (some ds) s = take_in_until w r count ds w.fails_after s

  -- From the cache's answer on.
  unfoldable pub answer_with :
      Draw → Request → List Destination → Option Response → Stores → Stores × Option Response
  unfolding take_in event_of create_all
  answer_with w r active (some cached) s = (s, some cached)
  answer_with w r active none s =
      let matched = keep (matches_event_filter (event_of r)) active in
      take_in w r (length matched) (create_all w.now w.result_id w.delivery_ids 0 matched) s

  -- The question to the cache.
  unfoldable pub ask : Draw → Request → Stores → Option Response
  unfolding idempotency_key
  ask w r s = C.get w.now (idempotency_key r) s.cache

  -- `ingest`, where nothing comes between the two parts; `none` is an exception.
  pub ingest : Draw → Bool → Request → List Destination → Stores → Stores × Option Response
  unfolding answer_with ask
  ingest w accepted r active s =
      if accepted then answer_with w r active (ask w r s) s else (s, none)
