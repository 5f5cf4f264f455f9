-- ===== src/Application/ProcessDelivery.antt =====
-- src/application/services/process-delivery.service.ts: one delivery is sent and moved on by the
-- answer. What the HTTP client answers, and whether the attempt is recorded, are arguments; what
-- the service hands to the repository is part of the result. Spans, counters and logs are left out,
-- and so are the loading of the delivery, its destination and the payload.
pub mod Laws
use queue_forge.Delivery.Attempt.{bad_status}
use queue_forge.Delivery.Status.{is_processing, Status}
use queue_forge.Delivery.Entity.{
  move_to_dead_letter_queue, after, schedule_retry, mark_as_processing, can_retry,
  mark_as_completed, Outcome, Delivery, Error,
}
use queue_forge.Base.{
  Bool, List, Option, Text, [], codes, false, if◌then◌else◌, inl, inr, is_some, leb, ltb, none,
  or_text, show_number, some, suc, true, zero, ℕ, ◌&&◌, ◌*◌, ◌++◌, ◌+◌, ◌-◌, ◌==◌, ◌^◌, ◌||◌, ◌∷◌,
  ◌⊎◌,
}
use queue_forge.Base.Int.{pos}

-- What comes of `httpClient.post`: a response with the status it carries, or an exception with its
-- message and its status.
pub data Reply : Type 0 where
  response : Option ℕ → Reply
  exception : Option Text → Option ℕ → Reply

pub data Problem : Type 0 where
  of_delivery : Error → Problem
  unrecorded : Problem

-- What is added to the attempts. `RetryAttempt.create` takes the error before the latency and is
-- called with them the other way round, so an attempt that it makes has the duration for its error
-- and no latency; where it throws, a plain object is added.
pub data Noted : Type 0 where
  attempt : (number status error_duration : ℕ) → Noted
  plain : (number status latency : ℕ) → Option Text → Noted

pub record Report : Type 0 where
  pub status : Status
  pub success : Bool
  pub status_code : ℕ
  pub latency_ms : ℕ
  pub next_retry_at : Option ℕ
  pub error : Option Text

pub record Processed : Type 0 where
  pub delivery : Delivery
  pub saves : List Delivery
  pub sent : Bool
  pub noted : Option Noted
  pub outcome : Report ⊎ Problem

-- `status || n`.
or_status : Option ℕ → ℕ → ℕ
or_status none n = n
or_status (some zero) n = n
or_status (some (suc c)) n = suc c

unfoldable pub response_status : Reply → ℕ
unfolding or_status
response_status (response status) = or_status status 200
response_status (exception message status) = or_status status 0

abbrev is_2xx : ℕ → Bool
is_2xx code = leb 200 code && ltb code 300

-- An exception is never a success, whatever status it carries.
unfoldable pub success : Reply → Bool
unfolding response_status
success (response status) = is_2xx (response_status (response status))
success (exception message status) = false

non_2xx : ℕ → Text
non_2xx code = codes "Received non-2xx response status: " ++ show_number code

unfoldable error_message : Reply → Option Text
unfolding success response_status non_2xx
error_message (response status) =
    if success (response status) then none else some (non_2xx (response_status (response status)))
error_message (exception message status) =
    some (or_text message (codes "Network connection failed"))

unfoldable pub is_retryable : ℕ → Bool
is_retryable code = leb 500 code || ((code == 0) || ((code == 429) || (code == 408)))

-- The try block around `RetryAttempt.create`, and the time that `addAttempt` sets.
note : ℕ → Reply → Delivery → Noted
unfolding response_status error_message
note duration reply d =
    if bad_status (some (response_status reply)) || is_some (error_message reply)
    then plain (suc d.retry_count) (response_status reply) duration (error_message reply)
    else attempt (suc d.retry_count) (response_status reply) duration

touch : ℕ → Noted → Delivery → Delivery
touch now (attempt _ _ _) d = record d { last_attempt_at = some now; updated_at = now }
touch now (plain _ _ _ _) d = d

-- The three ways to move on.
move_on : ℕ → Reply → Delivery → Outcome
unfolding success response_status error_message is_retryable
move_on now reply d =
    if success reply
    then mark_as_completed now none d
    else if is_retryable (response_status reply) && can_retry 5 d
    then (schedule_retry now (after (pos (1000 * 2 ^ d.retry_count))) d, none)
    else move_to_dead_letter_queue now
        (or_text (error_message reply) (codes "Delivery failed permanently")) d

report : ℕ → Reply → Delivery → Report
unfolding success response_status error_message
report duration reply d = record {
  status = d.status;
  success = success reply;
  status_code = response_status reply;
  latency_ms = duration;
  next_retry_at = d.next_retry_at;
  error = error_message reply;
}

finish : ℕ → Reply → Delivery → Noted → Outcome → Processed
unfolding report
finish duration reply first noted (d, some e) = record {
  delivery = d;
  saves = first ∷ [];
  sent = true;
  noted = some noted;
  outcome = inr (of_delivery e);
}
finish duration reply first noted (d, none) = record {
  delivery = d;
  saves = first ∷ d ∷ [];
  sent = true;
  noted = some noted;
  outcome = inl (report duration reply d);
}

-- From the first save on; `recorded` says whether the attempt repository took the attempt.
send : ℕ → ℕ → Bool → Reply → Delivery → Processed
unfolding note touch move_on finish
send now duration recorded reply d =
    if recorded
    then (let noted = note duration reply d in
        finish duration reply d noted (move_on now reply (touch now noted d)))
    else record {
      delivery = d;
      saves = d ∷ [];
      sent = true;
      noted = none;
      outcome = inr unrecorded;
    }

send_marked : ℕ → ℕ → Bool → Reply → Outcome → Processed
unfolding send
send_marked now duration recorded reply (d, some e) = record {
  delivery = d;
  saves = [];
  sent = false;
  noted = none;
  outcome = inr (of_delivery e);
}
send_marked now duration recorded reply (d, none) = send now duration recorded reply d

-- `processDelivery`, on the delivery that it loads.
pub process_delivery : ℕ → ℕ → Bool → Reply → Delivery → Processed
unfolding send_marked
process_delivery now duration recorded reply d =
    send_marked now duration recorded reply
      (if is_processing d.status then (d, none) else mark_as_processing now d)
