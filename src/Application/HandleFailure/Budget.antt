-- ===== src/Application/HandleFailure/Budget.antt =====
-- What the service makes of the retry budget.
use queue_forge.Delivery.Status.{failed_dlq, scheduled_retry}
use queue_forge.Delivery.Entity.Lifecycle.{has_message}
use queue_forge.Delivery.Entity.{
  schedule_retry, add_domain_event, can_retry, mark_as_processing, mark_failed, Delivery,
}
use queue_forge.Application.HandleFailure.{thrown, Hint, handle_failure, is_retryable, Caught}
use queue_forge.Delivery.Failure.{make}
use queue_forge.Base.{
  List, [], arith, codes, false, max, none, refl, some, true, ℕ, ◌<◌, ◌∷◌, ◌≡◌, ◌≤◌, ◌⊎◌,
}

-- The time of a failure and what was caught and hinted.
pub record Report : Type 0 where
  pub now : ℕ
  pub caught : Caught
  pub hint : Hint

handle : Report → Delivery → Delivery
handle r d = (handle_failure r.now r.caught r.hint d).delivery

pub handle_all : List Report → Delivery → Delivery
handle_all [] d = d
handle_all (r ∷ rs) d = handle_all rs (handle r d)

-- The report calls for a retry, and its error can be recorded.
abbrev IsRetry : Report → Type 0
IsRetry r = (is_retryable r.caught r.hint ≡ true) × (has_message (thrown r.caught) ≡ true)

abbrev AllRetry : List Report → Type 0
AllRetry [] = Unit {0}
AllRetry (r ∷ rs) = IsRetry r × AllRetry rs

handle-scheduled :
    (r : Report) (d : Delivery)
    → IsRetry r
    → d.retry_count < 5
    → ((handle r d).status ≡ scheduled_retry) × ((handle r d).retry_count ≡ max 1 d.retry_count)
unfolding handle handle_failure thrown mark_failed mark_as_processing make can_retry
    add_domain_event schedule_retry
handle-scheduled r d h l = (ground arith, ground arith)

handle_all-scheduled :
    (rs : List Report) (d : Delivery)
    → AllRetry rs
    → d.retry_count < 5
    → d.status ≡ scheduled_retry
    → ((handle_all rs d).status ≡ scheduled_retry)
      × (max 1 (handle_all rs d).retry_count ≡ max 1 d.retry_count)
unfolding handle_all
handle_all-scheduled [] d h l s = (s, refl)
handle_all-scheduled (r ∷ rs) d h l s =
    let (status, count) = handle-scheduled r d h.0 l in
    let (status', count') = handle_all-scheduled rs (handle r d) h.1 (omega arith) status in
    (status', omega arith)

-- The service never uses up the retries of a delivery: after any number of failures that call for a
-- retry, and whose error is not an empty text, a delivery that had failed less than five times is
-- scheduled for another retry, and its count is at most the larger of 1 and what it was. So it
-- never reaches the dead letter queue.
pub handle_all_never_buries :
    (r : Report) (rs : List Report) (d : Delivery)
    → AllRetry (r ∷ rs)
    → d.retry_count < 5
    → ((handle_all (r ∷ rs) d).status ≡ scheduled_retry)
      × ((handle_all (r ∷ rs) d).retry_count ≤ max 1 d.retry_count)
unfolding handle_all
handle_all_never_buries r rs d h l =
    let (status, count) = handle-scheduled r d h.0 l in
    let (status', count') = handle_all-scheduled rs (handle r d) h.1 (omega arith) status in
    (status', omega arith)

-- A failure that calls for no retry, or one of a delivery that has failed five times, whose error is
-- not an empty text, buries the delivery, whatever its status: it is saved in the dead letter
-- queue with nothing due, and that is published.
handle_failure_buries :
    (now : ℕ) (x : Caught) (hint : Hint) (d : Delivery)
    → has_message (thrown x) ≡ true
    → (is_retryable x hint ≡ false) ⊎ (5 ≤ d.retry_count)
    → let h = handle_failure now x hint d in
      (h.delivery.status ≡ failed_dlq)
      × (h.delivery.next_retry_at ≡ none)
      × (h.saved ≡ true)
      × (h.published ≡ some (codes "DeliveryMovedToDLQEvent"))
      × (h.error ≡ none)
unfolding thrown handle_failure make schedule_retry mark_as_processing mark_failed can_retry
    add_domain_event
handle_failure_buries now x hint d m h =
    (ground arith, ground arith, ground arith, ground arith, ground arith)
