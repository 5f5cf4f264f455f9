-- ===== src/Delivery/Entity/Failing.antt =====
-- The retry budget of `markAsFailed`, over rounds of an attempt and its failure.
use queue_forge.Base.{
  ℕ, suc, ◌+◌, ◌<◌, ◌≤◌, ◌≡◌, refl, ◌⊎◌, inl, inr, true, false, Option, none, List, [], ◌∷◌, Text,
  arith, length, dec_lt,
}
use queue_forge.Base.Ratios.{Ratio}
use queue_forge.Delivery.Status.{pending, processing, scheduled_retry, failed_dlq}
use queue_forge.Delivery.Failure.{Failure, is_retryable, make}
use queue_forge.Delivery.Entity.{
  Delivery, Thrown, mark_as_processing, mark_as_failed, failure, Plan, other,
}

-- One attempt that fails: the time, the value drawn, the error and the plan handed over.
pub record Round : Type 0 where
  pub now : ℕ
  pub draw : Ratio
  pub error : Failure
  pub plan : Plan

round : ℕ → Round → Delivery → Delivery
round limit r d =
    (mark_as_failed r.now r.draw (failure r.error) r.plan limit (mark_as_processing r.now d).0).0

pub rounds : ℕ → List Round → Delivery → Delivery
rounds limit [] d = d
rounds limit (r ∷ rs) d = rounds limit rs (round limit r d)

abbrev AllRetryable : List Round → Type 0
AllRetryable [] = Unit {0}
AllRetryable (r ∷ rs) = (is_retryable r.error ≡ true) × AllRetryable rs

-- The statuses that an attempt may start from.
abbrev CanStart : Delivery → Type 0
CanStart d = (d.status ≡ pending) ⊎ (d.status ≡ scheduled_retry)

round_below :
    (limit : ℕ) (r : Round) (d : Delivery)
    → is_retryable r.error ≡ true
    → CanStart d
    → suc d.retry_count < limit
    → ((round limit r d).status ≡ scheduled_retry)
      × ((round limit r d).retry_count ≡ suc d.retry_count)
unfolding round mark_as_processing mark_as_failed
round_below limit r d h s l = (ground arith, ground arith)

round_last :
    (limit : ℕ) (r : Round) (d : Delivery)
    → CanStart d
    → limit ≤ suc d.retry_count
    → ((round limit r d).status ≡ failed_dlq) × ((round limit r d).retry_count ≡ suc d.retry_count)
unfolding round mark_as_processing mark_as_failed
round_last limit r d s l = (ground arith, ground arith)

round_closed : (limit : ℕ) (r : Round) (d : Delivery) → d.status ≡ failed_dlq → round limit r d ≡ d
unfolding round mark_as_processing mark_as_failed
round_closed limit r d h = ground arith

rounds_closed :
    (limit : ℕ) (rs : List Round) (d : Delivery) → d.status ≡ failed_dlq → rounds limit rs d ≡ d
unfolding rounds
rounds_closed limit [] d h = refl
rounds_closed limit (r ∷ rs) d h = rw (round_closed limit r d h) (rounds_closed limit rs d h)

rounds_below :
    (limit : ℕ) (rs : List Round) (d : Delivery)
    → AllRetryable rs
    → CanStart d
    → d.retry_count + length rs < limit
    → CanStart (rounds limit rs d) × ((rounds limit rs d).retry_count ≡ d.retry_count + length rs)
unfolding rounds
rounds_below limit [] d h s l = (s, omega arith)
rounds_below limit (r ∷ rs) d h s l =
    let (status, count) = round_below limit r d h.0 s (omega arith) in
    let (start, total) = rounds_below limit rs (round limit r d) h.1 (inr status) (omega arith) in
    (start, omega arith)

rounds_past :
    (limit : ℕ) (rs : List Round) (d : Delivery)
    → AllRetryable rs
    → CanStart d
    → d.retry_count < limit
    → limit ≤ d.retry_count + length rs
    → ((rounds limit rs d).status ≡ failed_dlq) × ((rounds limit rs d).retry_count ≡ limit)
unfolding rounds
rounds_past limit [] d h s b l = absurd (omega arith)
rounds_past limit (r ∷ rs) d h s b l = elim (dec_lt (suc d.retry_count) limit) [
  | yes more ↦
      let (status, count) = round_below limit r d h.0 s more in
      rounds_past limit rs (round limit r d) h.1 (inr status) (omega arith) (omega arith)
  | no last ↦
      let (status, count) = round_last limit r d s (omega arith) in
      rw (rounds_closed limit rs (round limit r d) status) (status, omega arith)
]

-- A delivery that may start, has failed less often than the limit, and whose attempts all fail
-- retryably through `markAsFailed`, may start again and has counted every failure as long as the
-- count is below the limit; from the failure that reaches the limit on it is in the dead letter
-- queue with the limit as its count.
pub rounds_budget :
    (limit : ℕ) (rs : List Round) (d : Delivery)
    → AllRetryable rs
    → CanStart d
    → d.retry_count < limit
    → (d.retry_count + length rs < limit
        → CanStart (rounds limit rs d)
          × ((rounds limit rs d).retry_count ≡ d.retry_count + length rs))
      × (limit ≤ d.retry_count + length rs
          → ((rounds limit rs d).status ≡ failed_dlq) × ((rounds limit rs d).retry_count ≡ limit))
rounds_budget limit rs d h s b = (rounds_below limit rs d h s, rounds_past limit rs d h s b)

-- A processing delivery whose error is not retryable goes to the dead letter queue at its first
-- failure, whatever the plan and the limit; so does one that fails with an exception that is no
-- DeliveryError, since that is taken as an UNKNOWN failure.
mark_as_failed_final :
    (now : ℕ) (draw : Ratio) (thrown : Thrown) (e : Failure) (plan : Plan) (limit : ℕ)
    (d : Delivery)
    → d.status ≡ processing
    → (thrown ≡ failure e) × (is_retryable e ≡ false)
      ⊎ ((message : Option Text) × (thrown ≡ other message))
    → let (d', error) = mark_as_failed now draw thrown plan limit d in
      (d'.status ≡ failed_dlq)
      × (d'.retry_count ≡ suc d.retry_count)
      × (d'.next_retry_at ≡ none)
      × (error ≡ none)
unfolding mark_as_failed is_retryable make
mark_as_failed_final now draw thrown e plan limit d p (inl (t, h)) =
    (ground arith, ground arith, ground arith, ground arith)
mark_as_failed_final now draw thrown e plan limit d p (inr (m, t)) =
    (ground arith, ground arith, ground arith, ground arith)
