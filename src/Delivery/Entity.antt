-- ===== src/Delivery/Entity.antt =====
-- src/domain/entities/delivery.entity.ts: one result on its way to one destination. A method takes
-- the time `now` that its calls of `new Date()` see, and gives the entity it leaves behind with the
-- error it throws, if any: what was assigned before a throw stays assigned.
pub mod Lifecycle
pub mod Failing
use queue_forge.Base.{
  ℕ, suc, ◌+◌, ◌*◌, ◌^◌, Bool, true, false, not, ◌||◌, ◌&&◌, Option, none, some, List, [], ◌∷◌,
  ◌++◌, Text, codes, same_codes, or_text, or_else, is_empty, is_some, if◌then◌else◌, ltb, leb, ◌==◌,
}
use queue_forge.Base.Int.{ℤ, pos, clamp_zero}
use queue_forge.Base.Ratios.{Ratio}
use queue_forge.Delivery.Status.{
  Status, pending, processing, completed, scheduled_retry, failed_dlq, is_pending, is_processing,
  is_scheduled_for_retry, is_final,
}
use queue_forge.Delivery.Failure
use queue_forge.Delivery.Failure.{Failure}
use queue_forge.Delivery.Attempt.{Attempt}
use queue_forge.Delivery.Strategy
use queue_forge.Delivery.Strategy.{Strategy}

-- A domain event that a service adds: its name, the retry count and the message it reports.
pub record DomainEvent : Type 0 where
  pub name : Text
  pub count : ℕ
  pub message : Text

pub record Delivery : Type 0 where
  pub id : Text
  pub task_result_id : Text
  pub destination_id : Text
  pub status : Status
  pub retry_count : ℕ
  pub next_retry_at : Option ℕ
  pub last_attempt_at : Option ℕ
  pub last_error : Option Failure
  pub completed_at : Option ℕ
  pub created_at : ℕ
  pub updated_at : ℕ
  pub attempts : List Attempt
  pub deleted_at : Option ℕ
  pub domain_events : List DomainEvent

pub data Error : Type 0 where
  invalid_state : Status → Status → Error
  validation : Error

abbrev pub Outcome : Type 0
Outcome = Delivery × Option Error

-- The constructor's checks, on the fields that it is given.
construct : Delivery → Option Delivery
construct d =
    if is_empty d.id
    then none
    else if is_empty d.task_result_id
    then none
    else if is_empty d.destination_id
    then none
    else some d

-- The factory; `fresh` is what uuidv4 returns.
unfoldable pub create : ℕ → Text → Text → Text → Option Text → Option Delivery
unfolding construct
create now fresh task_result_id destination_id id = construct (record {
  id = or_text id fresh;
  task_result_id = task_result_id;
  destination_id = destination_id;
  status = pending;
  retry_count = 0;
  next_retry_at = none;
  last_attempt_at = none;
  last_error = none;
  completed_at = none;
  created_at = now;
  updated_at = now;
  attempts = [];
  deleted_at = none;
  domain_events = [];
})

unfoldable pub mark_as_processing : ℕ → Delivery → Outcome
mark_as_processing now d =
    if not (is_pending d.status) && not (is_scheduled_for_retry d.status)
    then (d, some (invalid_state d.status processing))
    else (record d { status = processing; last_attempt_at = some now; updated_at = now }, none)

-- The argument is the time of completion, where the caller gives one.
unfoldable pub mark_as_completed : ℕ → Option ℕ → Delivery → Outcome
mark_as_completed now at d =
    if not (is_processing d.status) then (d, some (invalid_state d.status completed)) else (
      record d {
        status = completed;
        completed_at = some (or_else at now);
        next_retry_at = none;
        updated_at = or_else at now;
      },
      none,
    )

pub data Delay : Type 0 where
  after : ℤ → Delay
  at : ℕ → Delay

abbrev due : ℕ → Delay → ℕ
due now (after ms) = now + clamp_zero ms
due now (at time) = time

unfoldable pub schedule_retry : ℕ → Delay → Delivery → Delivery
schedule_retry now delay d = record d {
  status = scheduled_retry;
  next_retry_at = some (due now delay);
  updated_at = now;
}

move_to_retry : ℕ → Ratio → Strategy → Delivery → Delivery
unfolding schedule_retry
move_to_retry now draw s d =
    schedule_retry now (after (pos (Strategy.calculate_delay s d.retry_count draw))) d

-- The part of `moveToDeadLetterQueue` after the error is there.
abbrev close_dlq : ℕ → Delivery → Delivery
close_dlq now d = record d { next_retry_at = none; updated_at = now }

-- `d.last_error` by its cases, once the status is set.
dlq_with : ℕ → Text → Option Failure → Delivery → Outcome
dlq_with now reason (some e) d = (close_dlq now d, none)
dlq_with now reason none d = elim (Failure.of_category Failure.permanent reason) [
  | none ↦ (d, some validation)
  | some e ↦ (close_dlq now (record d { last_error = some e }), none)
]

unfoldable pub move_to_dead_letter_queue : ℕ → Text → Delivery → Outcome
unfolding dlq_with
move_to_dead_letter_queue now reason d =
    dlq_with now reason d.last_error (record d { status = failed_dlq })

-- What is handed over as the error: a DeliveryError, a text, or another value by its `message`.
pub data Thrown : Type 0 where
  failure : Failure → Thrown
  text : Text → Thrown
  other : Option Text → Thrown

to_failure : Thrown → Option Failure
to_failure (failure e) = some e
to_failure (text s) = Failure.of_category Failure.unknown s
to_failure (other message) =
    Failure.of_category Failure.unknown (or_text message (codes "Delivery failed"))

-- The second argument of the two failure methods.
pub data Plan : Type 0 where
  no_plan : Plan
  flag : Bool → Plan
  strategy : Strategy → Plan

retry_as : ℕ → Ratio → Plan → Delivery → Delivery
unfolding move_to_retry schedule_retry
retry_as now draw (strategy s) d = move_to_retry now draw s d
retry_as now draw _ d = schedule_retry now (after (pos (1000 * 2 ^ d.retry_count))) d

fail_with : ℕ → Ratio → Failure → Plan → ℕ → Delivery → Outcome
unfolding move_to_dead_letter_queue retry_as
fail_with now draw e plan limit d =
    let d' = record d { last_error = some e; retry_count = suc d.retry_count } in
    if not (Failure.is_retryable e) || leb limit d'.retry_count
    then move_to_dead_letter_queue now e.message d'
    else (retry_as now draw plan d', none)

pub mark_as_failed : ℕ → Ratio → Thrown → Plan → ℕ → Delivery → Outcome
unfolding fail_with to_failure
mark_as_failed now draw thrown plan limit d =
    if not (is_processing d.status)
    then (d, some (invalid_state d.status scheduled_retry))
    else elim (to_failure thrown) [
      | none ↦ (d, some validation)
      | some e ↦ fail_with now draw e plan limit d
    ]

pub increment_retry_count : ℕ → Delivery → Delivery
increment_retry_count now d = record d { retry_count = suc d.retry_count; updated_at = now }

wants_retry : Plan → ℕ → Bool
wants_retry no_plan count = true
wants_retry (flag b) count = b
wants_retry (strategy s) count = Strategy.can_retry s count

-- `if (retryCount === 0) retryCount = 1`.
abbrev counted : ℕ → ℕ
counted count = if count == 0 then 1 else count

loose_fail_with : ℕ → Failure → Plan → ℕ → Delivery → Outcome
unfolding move_to_dead_letter_queue wants_retry
loose_fail_with now e plan limit d =
    let d' = record d { last_error = some e; retry_count = counted d.retry_count } in
    if not (wants_retry plan d'.retry_count) || leb limit d'.retry_count
    then move_to_dead_letter_queue now e.message d'
    else (record d' { status = scheduled_retry; updated_at = now }, none)

unfoldable pub mark_failed : ℕ → Thrown → Plan → ℕ → Delivery → Outcome
unfolding loose_fail_with to_failure
mark_failed now thrown plan limit d = elim (to_failure thrown) [
  | none ↦ (d, some validation)
  | some e ↦ loose_fail_with now e plan limit d
]

pub add_attempt : ℕ → Attempt → Delivery → Delivery
add_attempt now a d = record d {
  attempts = d.attempts ++ a ∷ [];
  last_attempt_at = some a.timestamp;
  updated_at = now;
}

unfoldable pub can_retry : ℕ → Delivery → Bool
can_retry limit d = if is_final d.status then false else ltb d.retry_count limit

unfoldable pub should_move_to_dead_letter_queue : ℕ → Bool
should_move_to_dead_letter_queue code =
    leb 400 code && (ltb code 500 && (not (code == 408) && not (code == 429)))

unfoldable pub equals : Delivery → Delivery → Bool
equals d e = same_codes d.id e.id

-- AggregateRoot: deletion and the list of domain events.
unfoldable pub delete : ℕ → Delivery → Delivery
delete now d = record d { deleted_at = some now }

unfoldable is_deleted : Delivery → Bool
is_deleted d = is_some d.deleted_at

unfoldable pub add_domain_event : DomainEvent → Delivery → Delivery
add_domain_event e d = record d { domain_events = d.domain_events ++ e ∷ [] }

unfoldable clear_domain_events : Delivery → Delivery
clear_domain_events d = record d { domain_events = [] }
