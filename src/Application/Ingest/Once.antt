-- ===== src/Application/Ingest/Once.antt =====
-- That a result is taken in once.
use queue_forge.Delivery.Entity.{Delivery}
use queue_forge.Destination.Entity.{matches_event_filter, Destination}
use queue_forge.Application.Ingest.{
  save_all, take_in_until, saved_until, ask, create_all, event_of, cache_seconds, answer_with,
  take_in, Response, ingest, Stores, Draw, Request, Cache, idempotency_key,
}
use queue_forge.Base.{
  Bool, Bool-cases, List, Option, Text, [], false, inl, inr, keep, length, ltb, none, refl,
  same_codes, same_codes→eq, some, true, ℕ, ◌*◌, ◌+◌, ◌<◌, ◌∙◌, ◌∷◌, ◌≡◌, ◌≤◌,
}

same_key :
    (r q : Request)
    → r.email_id ≡ q.email_id
    → r.agent_id ≡ q.agent_id
    → r.agent_version ≡ q.agent_version
    → idempotency_key r ≡ idempotency_key q
unfolding idempotency_key
same_key r q e a v = rw (e, a, v) refl

module _ (C : Cache) where
  -- A request's call, at a time, with what is drawn and the destinations that are active then.
  pub record Visit : Type 0 where
    pub draw : Draw C
    pub accepted : Bool
    pub request : Request
    pub active : List Destination

  visit : Visit → Stores C → Stores C
  visit v s = (ingest C v.draw v.accepted v.request v.active s).0

  -- What other requests do: a whole call, or the rest of one that asked the cache before, with what
  -- it was told, at the time that it has then.
  pub data Event : Type 0 where
    whole : Visit → Event
    goes_on : Visit → Option Response → Event

  unfoldable pub visit_of : Event → Visit
  visit_of (whole v) = v
  visit_of (goes_on v o) = v

  after_event : Event → Stores C → Stores C
  unfolding visit
  after_event (whole v) s = visit v s
  after_event (goes_on v o) s = (answer_with C v.draw v.request v.active o s).0

  pub visit_all : List Event → Stores C → Stores C
  unfolding after_event
  visit_all [] s = s
  visit_all (v ∷ vs) s = visit_all vs (after_event v s)

  -- A request that goes on has another key.
  unfoldable pub IsApart : Text → Event → Type 0
  IsApart key (whole v) = Unit {0}
  IsApart key (goes_on v o) = same_codes (idempotency_key v.request) key ≡ false

  unfoldable pub AllApart : Text → List Event → Type 0
  unfolding IsApart
  AllApart key [] = Unit {0}
  AllApart key (v ∷ vs) = IsApart key v × AllApart key vs

  -- From a time on and up to another one the cache answers for a key with a response.
  Keeps : Text → Response → ℕ → ℕ → C.Store → Type 0
  Keeps key response from until s = (t : ℕ) → from ≤ t → t < until → C.get t key s ≡ some response

  -- The events fall into the time.
  unfoldable pub AllWithin : ℕ → ℕ → List Event → Type 0
  unfolding visit_of
  AllWithin from until [] = Unit {0}
  AllWithin from until (v ∷ vs) =
      ((from ≤ (visit_of v).draw.now) × ((visit_of v).draw.now < until)) × AllWithin from until vs

  -- A cached response is answered, and nothing changes.
  ingest-cached :
      (w : Draw C) (r : Request) (active : List Destination) (s : Stores C) (response : Response)
      → C.get w.now (idempotency_key r) s.cache ≡ some response
      → ingest C w true r active s ≡ (s, some response)
  unfolding ingest answer_with ask
  ingest-cached w r active s response e = rw e refl

  save_all-Keeps :
      (key : Text) (response : Response) (from until : ℕ) (w : Draw C) (r : Request) (n : ℕ)
      (ds : List Delivery) (s : Stores C)
      → same_codes (idempotency_key r) key ≡ false
      → Keeps key response from until s.cache
      → Keeps key response from until (save_all C w r n ds s).0.cache
  unfolding save_all Keeps
  save_all-Keeps key response from until w r n ds s d k =
      λ t a b. C.get-setex_other w.now cache_seconds t (idempotency_key r) key _ s.cache d ∙ k t a b

  take_in_until-Keeps :
      (key : Text) (response : Response) (from until : ℕ) (w : Draw C) (r : Request) (n : ℕ)
      (ds : List Delivery) (o : Option ℕ) (s : Stores C)
      → same_codes (idempotency_key r) key ≡ false
      → Keeps key response from until s.cache
      → Keeps key response from until (take_in_until C w r n ds o s).0.cache
  unfolding take_in_until saved_until
  take_in_until-Keeps key response from until w r n ds none s d k =
      save_all-Keeps key response from until w r n ds s d k
  take_in_until-Keeps key response from until w r n ds (some m) s d k =
      elim (Bool-cases (ltb m (1 + (length ds + length ds)))) [
        | inl y ↦ rw y k
        | inr y ↦ rw y (save_all-Keeps key response from until w r n ds s d k)
      ]

  take_in-Keeps :
      (key : Text) (response : Response) (from until : ℕ) (w : Draw C) (r : Request) (n : ℕ)
      (o : Option (List Delivery)) (s : Stores C)
      → same_codes (idempotency_key r) key ≡ false
      → Keeps key response from until s.cache
      → Keeps key response from until (take_in C w r n o s).0.cache
  unfolding take_in
  take_in-Keeps key response from until w r n none s d k = k
  take_in-Keeps key response from until w r n (some ds) s d k =
      take_in_until-Keeps key response from until w r n ds w.fails_after s d k

  save_all-sets :
      (w : Draw C) (r : Request) (n : ℕ) (ds : List Delivery) (s : Stores C) (response : Response)
      → (save_all C w r n ds s).1 ≡ some response
      → Keeps
          (idempotency_key r)
          response
          w.now
          (w.now + cache_seconds * 1000)
          (save_all C w r n ds s).0.cache
  unfolding save_all Keeps
  save_all-sets w r n ds s response h =
      λ t a b. C.get-setex w.now cache_seconds t (idempotency_key r) _ s.cache a b ∙ h

  take_in_until-sets :
      (w : Draw C) (r : Request) (n : ℕ) (ds : List Delivery) (o : Option ℕ) (s : Stores C)
      (response : Response)
      → (take_in_until C w r n ds o s).1 ≡ some response
      → Keeps
          (idempotency_key r)
          response
          w.now
          (w.now + cache_seconds * 1000)
          (take_in_until C w r n ds o s).0.cache
  unfolding take_in_until
  take_in_until-sets w r n ds none s response = save_all-sets w r n ds s response
  take_in_until-sets w r n ds (some m) s response =
      elim (Bool-cases (ltb m (1 + (length ds + length ds)))) [
        | inl y ↦ rw y (λ h. cc)
        | inr y ↦ rw y (save_all-sets w r n ds s response)
      ]

  take_in-sets :
      (w : Draw C) (r : Request) (n : ℕ) (o : Option (List Delivery)) (s : Stores C)
      (response : Response)
      → (take_in C w r n o s).1 ≡ some response
      → Keeps
          (idempotency_key r)
          response
          w.now
          (w.now + cache_seconds * 1000)
          (take_in C w r n o s).0.cache
  unfolding take_in
  take_in-sets w r n none s response h = cc
  take_in-sets w r n (some ds) s response h = take_in_until-sets w r n ds w.fails_after s response h

  answer-Keeps :
      (w : Draw C) (r : Request) (active : List Destination) (s : Stores C) (response : Response)
      (o : Option Response)
      → o ≡ none
      → (answer_with C w r active o s).1 ≡ some response
      → Keeps
          (idempotency_key r)
          response
          w.now
          (w.now + cache_seconds * 1000)
          (answer_with C w r active o s).0.cache
  unfolding answer_with
  answer-Keeps w r active s response none n =
      let m = keep (matches_event_filter (event_of r)) active in
      take_in-sets w r (length m) (create_all w.now w.result_id w.delivery_ids 0 m) s response
  answer-Keeps w r active s response (some x) n = λ h. cc

  answer-other :
      (key : Text) (response : Response) (from until : ℕ) (w : Draw C) (r : Request)
      (active : List Destination) (s : Stores C) (o : Option Response)
      → same_codes (idempotency_key r) key ≡ false
      → Keeps key response from until s.cache
      → Keeps key response from until (answer_with C w r active o s).0.cache
  unfolding answer_with
  answer-other key response from until w r active s (some x) d k = k
  answer-other key response from until w r active s none d k =
      let m = keep (matches_event_filter (event_of r)) active in
      take_in-Keeps key response from until w r (length m)
        (create_all w.now w.result_id w.delivery_ids 0 m) s d k

  same_by :
      (key : Text) (response : Response) (from until : ℕ) (v : Visit) (accepted : Bool)
      (s : Stores C)
      → C.get v.draw.now (idempotency_key v.request) s.cache ≡ some response
      → Keeps key response from until s.cache
      → Keeps key response from until (ingest C v.draw accepted v.request v.active s).0.cache
  unfolding ingest
  same_by key response from until v true s g k =
      rw (ingest-cached v.draw v.request v.active s response g) k
  same_by key response from until v false s g k = k

  visit_same :
      (key : Text) (response : Response) (from until : ℕ) (v : Visit) (s : Stores C)
      → from ≤ v.draw.now
      → v.draw.now < until
      → idempotency_key v.request ≡ key
      → Keeps key response from until s.cache
      → Keeps key response from until (visit v s).cache
  unfolding visit Keeps
  visit_same key response from until v s a b e k =
      same_by key response from until v v.accepted s (rw e (k v.draw.now a b)) k

  visit_other :
      (key : Text) (response : Response) (from until : ℕ) (v : Visit) (s : Stores C)
      → same_codes (idempotency_key v.request) key ≡ false
      → Keeps key response from until s.cache
      → Keeps key response from until (visit v s).cache
  unfolding visit ingest ask
  visit_other key response from until v s d k = elim (Bool-cases v.accepted) [
    | inl t ↦ rw t (
        answer-other key response from until v.draw v.request v.active s
          (C.get v.draw.now (idempotency_key v.request) s.cache) d k)
    | inr f ↦ rw f k
  ]

  visit-Keeps :
      (key : Text) (response : Response) (from until : ℕ) (v : Visit) (s : Stores C)
      → from ≤ v.draw.now
      → v.draw.now < until
      → Keeps key response from until s.cache
      → Keeps key response from until (visit v s).cache
  unfolding visit
  visit-Keeps key response from until v s a b k =
      elim (Bool-cases (same_codes (idempotency_key v.request) key)) [
        | inl e ↦ visit_same key response from until v s a b (same_codes→eq _ _ e) k
        | inr d ↦ visit_other key response from until v s d k
      ]

  event-Keeps :
      (key : Text) (response : Response) (from until : ℕ) (v : Event) (s : Stores C)
      → IsApart key v
      → from ≤ (visit_of v).draw.now
      → (visit_of v).draw.now < until
      → Keeps key response from until s.cache
      → Keeps key response from until (after_event v s).cache
  unfolding after_event visit_of IsApart visit
  event-Keeps key response from until (whole v) s d a b k =
      visit-Keeps key response from until v s a b k
  event-Keeps key response from until (goes_on v o) s d a b k =
      answer-other key response from until v.draw v.request v.active s o d k

  visit_all-Keeps :
      (key : Text) (response : Response) (from until : ℕ) (vs : List Event) (s : Stores C)
      → AllApart key vs
      → AllWithin from until vs
      → Keeps key response from until s.cache
      → Keeps key response from until (visit_all vs s).cache
  unfolding visit_all AllWithin AllApart
  visit_all-Keeps key response from until [] s d a k = k
  visit_all-Keeps key response from until (v ∷ vs) s d a k =
      visit_all-Keeps key response from until vs (after_event v s) d.1 a.1
        (event-Keeps key response from until v s d.0 a.0.0 a.0.1 k)

  -- A result is taken in once, where requests for it do not overlap: after a request that was not in
  -- the cache was answered, every request with the same email, agent and version that asks the cache
  -- in the next 24 hours gets the same response and changes nothing, whatever its payload, and
  -- whatever other requests did in between, as long as those that had asked the cache before and go
  -- on later are of other keys.
  pub ingest_once :
      (w w' : Draw C) (r : Request) (active : List Destination) (asked s : Stores C)
      (response : Response) (vs : List Event) (q : Request) (active' : List Destination)
      → ask C w r asked ≡ none
      → (answer_with C w' r active (ask C w r asked) s).1 ≡ some response
      → AllApart (idempotency_key r) vs
      → AllWithin w'.now (w'.now + cache_seconds * 1000) vs
      → (w'' : Draw C) → w'.now ≤ w''.now
      → w''.now < w'.now + cache_seconds * 1000
      → q.email_id ≡ r.email_id
      → q.agent_id ≡ r.agent_id
      → q.agent_version ≡ r.agent_version
      → let y = visit_all vs (answer_with C w' r active (ask C w r asked) s).0 in
        ingest C w'' true q active' y ≡ (y, some response)
  unfolding Keeps
  ingest_once w w' r active asked s response vs q active' n h d a w'' l u e f g =
      let o = ask C w r asked in
      let y = visit_all vs (answer_with C w' r active o s).0 in
      let k =
        visit_all-Keeps (idempotency_key r) response w'.now (w'.now + cache_seconds * 1000) vs
          (answer_with C w' r active o s).0 d a (answer-Keeps w' r active s response o n h) in
      ingest-cached w'' q active' y response (rw (same_key q r e f g) (k w''.now l u))
