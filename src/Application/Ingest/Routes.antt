-- ===== src/Application/Ingest/Routes.antt =====
-- What a result that is taken in leads to.
use queue_forge.Delivery.Status.{pending}
use queue_forge.Application.Ingest.{
  take_in_until, save_all, ask, event_of, idempotency_key, Stores, Request, Draw, take_in,
  answer_with, ingest, Cache, enqueue_all, create_all, Enqueued,
}
use queue_forge.Base.{
  Bool, Bool-cases, List, Text, [], ap, arith, false, inl, inr, is_empty, keep, length, none, refl,
  some, suc, true, ℕ, ◌++◌, ◌∙◌, ◌∷◌, ◌≡◌,
}
use queue_forge.Destination.Entity.{matches_event_filter, Destination}
use queue_forge.Delivery.Entity.{Delivery, create}

-- The ids of destinations, and those that deliveries are for.
abbrev ids : List Destination → List Text
ids [] = []
ids (d ∷ ds) = d.id ∷ ids ds

abbrev targets : List Delivery → List Text
targets [] = []
targets (d ∷ ds) = d.destination_id ∷ targets ds

abbrev job_targets : List Enqueued → List Text
job_targets [] = []
job_targets (j ∷ js) = j.destination_id ∷ job_targets js

-- Every destination has an id.
abbrev pub AllNamed : List Destination → Type 0
AllNamed [] = Unit {0}
AllNamed (d ∷ ds) = (is_empty d.id ≡ false) × AllNamed ds

-- Every delivery is pending and of the result.
abbrev AllNew : Text → List Delivery → Type 0
AllNew result [] = Unit {0}
AllNew result (d ∷ ds) =
    ((d.status ≡ pending) × (d.retry_count ≡ 0) × (d.task_result_id ≡ result)) × AllNew result ds

-- The delivery that the factory makes.
abbrev made : ℕ → Text → Text → Text → Delivery
made now fresh result destination = record {
  id = fresh;
  task_result_id = result;
  destination_id = destination;
  status = pending;
  retry_count = 0;
  next_retry_at = none;
  last_attempt_at = none;
  last_error = none;
  completed_at = none;
  created_at = now;
  updated_at = now;
  attempts = [];
  deleted_at = none;
  domain_events = [];
}

create-new :
    (now : ℕ) (fresh result destination : Text)
    → is_empty fresh ≡ false
    → is_empty result ≡ false
    → is_empty destination ≡ false
    → (x : Delivery) × (create now fresh result destination none ≡ some x)
      × (x.destination_id ≡ destination)
      × (x.status ≡ pending)
      × (x.retry_count ≡ 0)
      × (x.task_result_id ≡ result)
unfolding create
create-new now fresh result destination f r d =
    (made now fresh result destination, rw (f, r, d) refl, refl, refl, refl, refl)

create_all-new :
    (now : ℕ) (result : Text) (fresh : ℕ → Text) (n : ℕ) (ds : List Destination)
    → ((k : ℕ) → is_empty (fresh k) ≡ false)
    → is_empty result ≡ false
    → AllNamed ds
    → (xs : List Delivery) × (create_all now result fresh n ds ≡ some xs)
      × (targets xs ≡ ids ds)
      × AllNew result xs
unfolding create_all
create_all-new now result fresh n [] f r a = ([], refl, refl, tt)
create_all-new now result fresh n (d ∷ ds) f r a =
    let (x, e, t, s, c, i) = create-new now (fresh n) result d.id (f n) r a.0 in
    let (xs, e', t', w) = create_all-new now result fresh (suc n) ds f r a.1 in
    (x ∷ xs, rw (e, e') refl, ground (arith, t, t'), ((s, c, i), w))

AllNamed-keep :
    (p : Destination → Bool) (ds : List Destination) → AllNamed ds → AllNamed (keep p ds)
AllNamed-keep p [] a = tt
AllNamed-keep p (d ∷ ds) a = elim (Bool-cases (p d)) [
  | inl e ↦ rw e (a.0, AllNamed-keep p ds a.1)
  | inr e ↦ rw e (AllNamed-keep p ds a.1)
]

job_targets-enqueue_all :
    (result : Text) (xs : List Delivery) → job_targets (enqueue_all result xs) ≡ targets xs
unfolding enqueue_all
job_targets-enqueue_all result [] = refl
job_targets-enqueue_all result (x ∷ xs) =
    ap (λ (l : List Text). x.destination_id ∷ l) (job_targets-enqueue_all result xs)

module _ (C : Cache) where
  -- A valid request that is not in the cache is always taken in, where all identifiers are given
  -- and no save and no call of the queue fails:
  -- its result is saved, one pending delivery of it is saved and one job queued for each of the
  -- active destinations whose filters its event has, in their order, and the response has its id and
  -- their number.
  pub ingest_routes :
      (w : Draw C) (r : Request) (active : List Destination) (s : Stores C)
      → C.get w.now (idempotency_key r) s.cache ≡ none
      → w.fails_after ≡ none
      → is_empty w.result_id ≡ false
      → ((k : ℕ) → is_empty (w.delivery_ids k) ≡ false)
      → AllNamed active
      → let (s', answer) = ingest C w true r active s in
        let matched = ids (keep (matches_event_filter (event_of r)) active) in
        (s'.results ≡ s.results ++ w.result_id ∷ [])
        × ((xs : List Delivery) × (s'.deliveries ≡ s.deliveries ++ xs)
            × (targets xs ≡ matched)
            × AllNew w.result_id xs)
        × ((js : List Enqueued) × (s'.jobs ≡ s.jobs ++ js) × (job_targets js ≡ matched))
        × (answer
            ≡ some (record {
              result_id = w.result_id;
              delivery_count = length (keep (matches_event_filter (event_of r)) active);
              timestamp = w.now;
            }))
  unfolding ingest answer_with take_in take_in_until save_all ask
  ingest_routes w r active s n z i f a =
      let m = keep (matches_event_filter (event_of r)) active in
      let (xs, e, t, new) =
        create_all-new w.now w.result_id w.delivery_ids 0 m f i
          (AllNamed-keep (matches_event_filter (event_of r)) active a) in
      rw (n, e, z)
        (
          refl,
          (xs, refl, t, new),
          (enqueue_all w.result_id xs, refl, job_targets-enqueue_all w.result_id xs ∙ t),
          refl,
        )
