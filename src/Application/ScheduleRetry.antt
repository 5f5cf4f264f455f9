-- ===== src/Application/ScheduleRetry.antt =====
-- src/application/services/schedule-retry.service.ts: the next retry of a delivery. Deliveries are
-- the domain's entities, and the queue is one with `enqueueDelivery`; what the service hands to the
-- repository and to the queue is part of the result. Logging is left out.
use queue_forge.Delivery.Strategy
use queue_forge.Base.Int.{pos}
use queue_forge.Delivery.Failure
use queue_forge.Delivery.Status.{scheduled_retry, failed_dlq, is_scheduled_for_retry, is_pending}
use queue_forge.Base.Ratios.{Ratio}
use queue_forge.Delivery.Entity.{
  after, mark_as_processing, move_to_dead_letter_queue, schedule_retry, Outcome, Delivery, Error,
}
use queue_forge.Delivery.Strategy.{Strategy}
use queue_forge.Base.{
  Bool, Option, Text, arith, codes, false, if◌then◌else◌, leb, ltb, none, refl, show_number, some,
  suc, true, ℕ, ◌*◌, ◌++◌, ◌+◌, ◌<◌, ◌^◌, ◌||◌, ◌≡◌, ◌≤◌,
}

-- An argument of `scheduleRetry` after the delivery's id.
pub data Given : Type 0 where
  absent : Given
  number : ℕ → Given
  strategy : Strategy → Given

pub data ServiceError : Type 0 where
  max_retries_exceeded : ℕ → ℕ → ServiceError
  of_delivery : Error → ServiceError

-- A job for the queue: the delivery's two ids, the attempt's number and the delay.
pub record Job : Type 0 where
  pub task_result_id : Text
  pub destination_id : Text
  pub attempt : ℕ
  pub delay : ℕ

pub record Scheduled : Type 0 where
  pub delivery : Delivery
  pub error : Option ServiceError
  pub saved : Bool
  pub job : Option Job

abbrev max_allowed : Given → ℕ
max_allowed absent = 5
max_allowed (number n) = n
max_allowed (strategy s) = Strategy.max_retries s

-- A number below 100 is the attempt's; another one is a delay.
abbrev attempt_num : Given → ℕ → ℕ
attempt_num (number n) count = if ltb n 100 then n else count
attempt_num _ count = count

abbrev plain_delay : Given → ℕ → ℕ
plain_delay (number n) attempt = if leb 100 n then n else 1000 * 2 ^ attempt
plain_delay _ attempt = 1000 * 2 ^ attempt

abbrev delay_of : Ratio → Given → Given → ℕ → ℕ
delay_of draw _ (strategy s) attempt = Strategy.calculate_delay s (suc attempt) draw
delay_of draw (strategy s) _ attempt = Strategy.calculate_delay s (suc attempt) draw
delay_of draw first _ attempt = plain_delay first attempt

exceeded : ℕ → ℕ → Text
exceeded count limit =
    codes "Max retries exceeded ("
    ++ (show_number count ++ (codes "/" ++ (show_number limit ++ codes ")")))

refused : ℕ → ℕ → Outcome → Scheduled
refused count limit (d, some e) = record {
  delivery = d;
  error = some (of_delivery e);
  saved = false;
  job = none;
}
refused count limit (d, none) = record {
  delivery = d;
  error = some (max_retries_exceeded count limit);
  saved = true;
  job = none;
}

-- The delivery as it is before `scheduleRetry` is called on it.
start : ℕ → Delivery → Delivery
start now d =
    if is_pending d.status || is_scheduled_for_retry d.status
    then (mark_as_processing now d).0
    else d

-- `scheduleRetry` of the service, on the delivery that it loads.
schedule : ℕ → Ratio → Given → Given → Delivery → Scheduled
unfolding exceeded refused start
schedule now draw first second d =
    let limit = max_allowed second in
    let attempt = attempt_num first d.retry_count in
    let delay = delay_of draw first second attempt in
    if leb limit d.retry_count
    then refused d.retry_count limit
        (move_to_dead_letter_queue now (exceeded d.retry_count limit) d)
    else record {
      delivery = schedule_retry now (after (pos delay)) (start now d);
      error = none;
      saved = true;
      job = some (record {
        task_result_id = d.task_result_id;
        destination_id = d.destination_id;
        attempt = suc attempt;
        delay = delay;
      });
    }

-- A delivery with its retries used up is saved in the dead letter queue with nothing due, no job is
-- queued and the error says so. Any other delivery, whatever its status, is saved as scheduled, due
-- when the delay of the queued job is over, and its retry count is what it was.
schedule_branches :
    (now : ℕ) (draw : Ratio) (first second : Given) (d : Delivery)
    → let r = schedule now draw first second d in
      (r.saved ≡ true)
      × (r.delivery.retry_count ≡ d.retry_count)
      × (max_allowed second ≤ d.retry_count
          → (r.delivery.status ≡ failed_dlq)
            × (r.delivery.next_retry_at ≡ none)
            × (r.job ≡ none)
            × (r.error ≡ some (max_retries_exceeded d.retry_count (max_allowed second))))
      × (d.retry_count < max_allowed second
          → (r.delivery.status ≡ scheduled_retry)
            × (r.error ≡ none)
            × ((j : Job) × (r.job ≡ some j)
                × (r.delivery.next_retry_at ≡ some (now + j.delay))
                × (j.attempt ≡ suc (attempt_num first d.retry_count))))
unfolding schedule schedule_retry mark_as_processing move_to_dead_letter_queue Failure.make
schedule_branches now draw first second d = (
  ground arith,
  ground arith,
  λ h. (ground arith, ground arith, ground arith, ground arith),
  λ h. (
    ground arith,
    ground arith,
    (
      record {
        task_result_id = d.task_result_id;
        destination_id = d.destination_id;
        attempt = suc (attempt_num first d.retry_count);
        delay = delay_of draw first second (attempt_num first d.retry_count);
      },
      ground arith,
      ground arith,
      refl,
    ),
  ),
)
