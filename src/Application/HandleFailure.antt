-- ===== src/Application/HandleFailure.antt =====
-- src/application/services/handle-failure.service.ts: what happens to a delivery whose attempt
-- failed. Deliveries are the domain's entities; the repositories' answers are arguments, and what
-- the service hands to them is part of the result. Counters and logs are left out.
pub mod Budget
use queue_forge.Base.Int.{pos}
use queue_forge.Delivery.Status.{is_scheduled_for_retry, is_pending}
use queue_forge.Delivery.Failure
use queue_forge.Delivery.Failure.{Failure}
use queue_forge.Base.{
  Bool, List, Option, Text, [], codes, false, if◌then◌else◌, leb, none, or_else, or_text,
  same_codes, some, suc, true, zero, ℕ, ◌&&◌, ◌*◌, ◌==◌, ◌^◌, ◌||◌, ◌∷◌,
}
use queue_forge.Delivery.Entity.{
  Thrown, Delivery, Error, mark_as_processing, mark_failed, can_retry, schedule_retry,
  move_to_dead_letter_queue, add_domain_event, flag, after,
}

-- What is caught: a DeliveryError, a text, or another value by its `message`, by the status code
-- that it carries, and by its `isRetryable` where that is no function.
pub data Caught : Type 0 where
  failure : Failure → Caught
  text : Text → Caught
  other : Option Text → Option ℕ → Option Bool → Caught

-- The third argument of `handleFailure`.
pub data Hint : Type 0 where
  no_hint : Hint
  code : ℕ → Hint
  retryable : Bool → Hint

unfoldable pub thrown : Caught → Thrown
thrown (failure e) = Thrown.failure e
thrown (text s) = Thrown.text s
thrown (other message status retry) = Thrown.other message

unfoldable error_message : Caught → Text
error_message (failure e) = or_text (some e.message) (codes "Unknown delivery failure")
error_message (text s) = s
error_message (other message status retry) = or_text message (codes "Unknown delivery failure")

-- `a || 500`, where 0 counts as nothing.
or_500 : Option ℕ → ℕ
or_500 none = 500
or_500 (some zero) = 500
or_500 (some (suc n)) = suc n

carried_code : Caught → Option ℕ
carried_code (failure e) = e.status_code
carried_code (text s) = none
carried_code (other message status retry) = status

pub status_code : Caught → Hint → ℕ
unfolding or_500 carried_code
status_code x (code n) = n
status_code x _ = or_500 (carried_code x)

by_code : ℕ → Bool
by_code n = leb 500 n || ((n == 0) || (n == 429))

retryable_value : Caught → ℕ → Bool
unfolding by_code
retryable_value (failure e) n = Failure.is_retryable e
retryable_value (text s) n = by_code n
retryable_value (other message status retry) n = or_else retry (by_code n)

unfoldable pub is_retryable : Caught → Hint → Bool
unfolding retryable_value status_code
is_retryable x (retryable b) = b
is_retryable x hint = retryable_value x (status_code x hint)

-- The outcome of one call: the delivery as it is left, the error that is thrown, what is logged of
-- the attempt, the name that is published, and whether the delivery is saved.
pub record Handled : Type 0 where
  pub delivery : Delivery
  pub error : Option Error
  pub logged : ℕ × Text
  pub published : Option Text
  pub saved : Bool

start : ℕ → Delivery → Delivery
start now d =
    if is_pending d.status || is_scheduled_for_retry d.status
    then (mark_as_processing now d).0
    else d

event : Text → Text → Delivery → Delivery
event name message d =
    add_domain_event (record { name = name; count = d.retry_count; message = message }) d

-- The two ways to end, once `markFailed` returned.
settle : ℕ → Text → ℕ × Text → Bool → Delivery → Handled
unfolding event
settle now message logged true d = record {
  delivery =
      event (codes "DeliveryFailedEvent") message
        (schedule_retry now (after (pos (2 ^ d.retry_count * 1000))) d);
  error = none;
  logged = logged;
  published = some (codes "DeliveryFailedEvent");
  saved = true;
}
settle now message logged false d =
    let (d', thrown) = move_to_dead_letter_queue now message d in
    elim thrown [
      | some e ↦ record {
        delivery = d';
        error = some e;
        logged = logged;
        published = none;
        saved = false;
      }
      | none ↦ record {
        delivery = event (codes "DeliveryMovedToDLQEvent") message d';
        error = none;
        logged = logged;
        published = some (codes "DeliveryMovedToDLQEvent");
        saved = true;
      }
    ]

after_mark : ℕ → Text → ℕ × Text → Bool → Delivery × Option Error → Handled
unfolding settle
after_mark now message logged retry (d, some e) = record {
  delivery = d;
  error = some e;
  logged = logged;
  published = none;
  saved = false;
}
after_mark now message logged retry (d, none) = settle now message logged (retry && can_retry 5 d) d

pub handle_failure : ℕ → Caught → Hint → Delivery → Handled
unfolding after_mark start
handle_failure now x hint d =
    after_mark now (error_message x) (status_code x hint, error_message x) (is_retryable x hint)
      (mark_failed now (thrown x) (flag (is_retryable x hint)) 5 (start now d))

-- `loadDelivery`: by id, or the first of the task's deliveries with the id, or the first of them.
first_with : Text → List Delivery → Option Delivery
first_with id [] = none
first_with id (d ∷ ds) = if same_codes d.id id then some d else first_with id ds

first_of_all : List Delivery → Option Delivery
first_of_all [] = none
first_of_all (d ∷ ds) = some d

or_delivery : Option Delivery → Option Delivery → Option Delivery
or_delivery none o = o
or_delivery (some d) o = some d

unfoldable load_delivery : Text → Option Delivery → List Delivery → Option Delivery
unfolding first_with first_of_all or_delivery
load_delivery id found of_task =
    or_delivery found (or_delivery (first_with id of_task) (first_of_all of_task))
