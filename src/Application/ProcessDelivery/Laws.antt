-- ===== src/Application/ProcessDelivery/Laws.antt =====
-- What becomes of a delivery that the service sends.
use queue_forge.Delivery.Failure.Laws.{retry_code, from_status_code_retryable}
use queue_forge.Delivery.Failure.{from_status_code, Failure}
use queue_forge.Delivery.Failure
use queue_forge.Delivery.Entity.{
  Delivery, move_to_dead_letter_queue, can_retry, schedule_retry, mark_as_completed,
  mark_as_processing,
}
use queue_forge.Application.ProcessDelivery.{
  send, Report, success, response_status, is_retryable, Reply, process_delivery,
}
use queue_forge.Delivery.Status.{
  processing, failed_dlq, scheduled_retry, completed, is_scheduled_for_retry, is_pending,
  is_processing, Status,
}
use queue_forge.Base.{
  Bool, List, Option, Text, [], arith, false, if◌then◌else◌, inl, length, ltb, none, not, refl,
  some, true, ℕ, ◌&&◌, ◌*◌, ◌+◌, ◌<◌, ◌^◌, ◌||◌, ◌∷◌, ◌≡◌, ◌≤◌,
}

-- A delivery that can be sent: pending, waiting for its retry, or already processing.
abbrev is_sendable : Status → Bool
is_sendable s = is_processing s || (is_pending s || is_scheduled_for_retry s)

-- The delivery as it is first saved.
started : ℕ → Delivery → Delivery
started now d = if is_processing d.status then d else (mark_as_processing now d).0

started-status :
    (now : ℕ) (d : Delivery)
    → is_sendable d.status ≡ true
    → ((started now d).status ≡ processing) × ((started now d).retry_count ≡ d.retry_count)
unfolding started mark_as_processing
started-status now d h = (ground arith, ground arith)

process_delivery-send :
    (now duration : ℕ) (reply : Reply) (d : Delivery)
    → is_sendable d.status ≡ true
    → process_delivery now duration true reply d ≡ send now duration true reply (started now d)
unfolding process_delivery started mark_as_processing
process_delivery-send now duration reply d h = ground arith

send_branches :
    (now duration : ℕ) (reply : Reply) (n : ℕ) (d : Delivery)
    → d.status ≡ processing
    → d.retry_count ≡ n
    → let r = send now duration true reply d in
      let retries = is_retryable (response_status reply) && (not (success reply) && ltb n 5) in
      (r.sent ≡ true)
      × (length r.saves ≡ 2)
      × (r.delivery.retry_count ≡ n)
      × (success reply ≡ true
          → (r.delivery.status ≡ completed) × (r.delivery.completed_at ≡ some now))
      × (retries ≡ true
          → (r.delivery.status ≡ scheduled_retry)
            × (r.delivery.next_retry_at ≡ some (now + 1000 * 2 ^ n)))
      × ((success reply ≡ false)
          → (retries ≡ false)
          → (r.delivery.status ≡ failed_dlq) × (r.delivery.next_retry_at ≡ none))
      × ((p : Report)
          → r.outcome ≡ inl p
          → (p.status ≡ r.delivery.status) × (p.next_retry_at ≡ r.delivery.next_retry_at))
unfolding send mark_as_completed schedule_retry can_retry move_to_dead_letter_queue Failure.make
send_branches now duration reply n d h c = (
  ground arith,
  ground arith,
  ground arith,
  λ s. (ground arith, ground arith),
  λ s. (ground arith, ground arith),
  λ s t. (ground arith, ground arith),
  λ p e. (ground arith, ground arith),
)

process_delivery-refuses :
    (now duration : ℕ) (reply : Reply) (d : Delivery)
    → is_sendable d.status ≡ false
    → let r = process_delivery now duration true reply d in
      (r.delivery ≡ d) × (r.saves ≡ []) × (r.sent ≡ false)
unfolding process_delivery mark_as_processing
process_delivery-refuses now duration reply d h = (ground arith, ground arith, ground arith)

-- The service refuses a completed or buried delivery: nothing is sent, saved or changed. Of any
-- other, with its attempt recorded, exactly one thing happens: on a 2xx response it is completed;
-- on a retryable status with less than five retries counted it is scheduled again, 2^count seconds
-- later; else it is buried with nothing due. It is saved before it is sent and as it ends, its
-- count of retries stays, and the report says its status and what is due.
pub process_delivery_branches :
    (now duration : ℕ) (reply : Reply) (d : Delivery)
    → let r = process_delivery now duration true reply d in
      let retries =
        is_retryable (response_status reply) && (not (success reply) && ltb d.retry_count 5) in
      (is_sendable d.status ≡ false → (r.delivery ≡ d) × (r.saves ≡ []) × (r.sent ≡ false))
      × (is_sendable d.status ≡ true
          → (r.sent ≡ true)
            × (length r.saves ≡ 2)
            × (r.delivery.retry_count ≡ d.retry_count)
            × (success reply ≡ true
                → (r.delivery.status ≡ completed) × (r.delivery.completed_at ≡ some now))
            × (retries ≡ true
                → (r.delivery.status ≡ scheduled_retry)
                  × (r.delivery.next_retry_at ≡ some (now + 1000 * 2 ^ d.retry_count)))
            × ((success reply ≡ false)
                → (retries ≡ false)
                → (r.delivery.status ≡ failed_dlq) × (r.delivery.next_retry_at ≡ none))
            × ((p : Report)
                → r.outcome ≡ inl p
                → (p.status ≡ r.delivery.status) × (p.next_retry_at ≡ r.delivery.next_retry_at)))
process_delivery_branches now duration reply d = (
  process_delivery-refuses now duration reply d,
  λ h.
      let (s, c) = started-status now d h in
      rw (process_delivery-send now duration reply d h)
        (send_branches now duration reply d.retry_count (started now d) s c),
)

-- A reply after which the service tries again.
abbrev IsRetried : Reply → Type 0
IsRetried reply = (is_retryable (response_status reply) ≡ true) × (success reply ≡ false)

abbrev pub AllRetried : List Reply → Type 0
AllRetried [] = Unit {0}
AllRetried (r ∷ rs) = IsRetried r × AllRetried rs

-- The delivery after it was sent for each of the replies, each time as it was left.
process_all : ℕ → List Reply → Delivery → Delivery
process_all now [] d = d
process_all now (r ∷ rs) d = process_all now rs (process_delivery now 0 true r d).delivery

-- The service alone never uses up the five retries: with less than five counted, any number of
-- replies with a retryable status leaves the delivery scheduled for another retry, with the same
-- count and so the same delay, and never in the dead letter queue.
process_all_never_buries :
    (now : ℕ) (rs : List Reply) (d : Delivery)
    → AllRetried rs
    → d.retry_count < 5
    → d.status ≡ scheduled_retry
    → ((process_all now rs d).status ≡ scheduled_retry)
      × ((process_all now rs d).retry_count ≡ d.retry_count)
unfolding process_all
process_all_never_buries now [] d h l s = (s, refl)
process_all_never_buries now (r ∷ rs) d h l s =
    let b = (process_delivery_branches now 0 r d).1 (ground arith) in
    let s' = (b.4 (ground arith)).0 in
    let (x, y) =
      process_all_never_buries now rs (process_delivery now 0 true r d).delivery h.1
        (omega (arith, b.2)) s' in
    (x, omega (arith, b.2, y))

-- The service and the domain's DeliveryError agree on which status codes from 1 to 599 are retried.
is_retryable-from_status_code :
    (code : ℕ) (message : Option Text) (e : Failure)
    → 0 < code
    → code ≤ 599
    → from_status_code code message ≡ some e
    → Failure.is_retryable e ≡ is_retryable code
unfolding is_retryable
is_retryable-from_status_code code message e h l p =
    let (e', q, _, r, _) = from_status_code_retryable code message in
    ground (arith, q, r, retry_code code)
