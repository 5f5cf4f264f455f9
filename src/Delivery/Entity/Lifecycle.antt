-- ===== src/Delivery/Entity/Lifecycle.antt =====
-- What the methods of the Delivery entity keep, in any order of calls.
use queue_forge.Base.{
  not, ◌&&◌, Bool, false, ℕ, ◌≡◌, true, Option, none, some, is_some, List, [], ◌∷◌, Text, is_empty,
  arith,
}
use queue_forge.Base.Ratios.{Ratio}
use queue_forge.Worker.Transitions.{
  is_valid_state_transition, is_valid_state_transition-get_value, may_move,
}
use queue_forge.Delivery.Status.{
  processing, Status, get_value, completed, scheduled_retry, failed_dlq, is_final,
}
use queue_forge.Delivery.Attempt.{Attempt}
use queue_forge.Delivery.Failure.{make}
use queue_forge.Delivery.Entity.{
  text, Delivery, Outcome, mark_as_processing, mark_as_completed, Delay, schedule_retry,
  move_to_dead_letter_queue, Thrown, Plan, mark_as_failed, mark_failed, increment_retry_count,
  add_attempt, create,
}

-- The calls that change a delivery, with what the caller hands over.
pub data Call : Type 0 where
  processes : Call
  completes : Option ℕ → Call
  fails : Ratio → Thrown → Plan → ℕ → Call
  schedules : Delay → Call
  buries : Text → Call
  records : Attempt → Call
  increments : Call
  fails_loosely : Thrown → Plan → ℕ → Call

pub step : ℕ → Call → Delivery → Outcome
step now processes d = mark_as_processing now d
step now (completes at) d = mark_as_completed now at d
step now (fails draw thrown plan limit) d = mark_as_failed now draw thrown plan limit d
step now (schedules delay) d = (schedule_retry now delay d, none)
step now (buries reason) d = move_to_dead_letter_queue now reason d
step now (records a) d = (add_attempt now a d, none)
step now increments d = (increment_retry_count now d, none)
step now (fails_loosely thrown plan limit) d = mark_failed now thrown plan limit d

pub run : List (ℕ × Call) → Delivery → Delivery
run [] d = d
run ((now, c) ∷ cs) d = run cs (step now c d).0

-- The fields agree with the status.
pub record IsConsistent (d : Delivery) : Type 0 where
  pub completed_at_set : d.status ≡ completed → is_some d.completed_at ≡ true
  pub completed_not_due : d.status ≡ completed → d.next_retry_at ≡ none
  pub dlq_error_set : d.status ≡ failed_dlq → is_some d.last_error ≡ true
  pub dlq_not_due : d.status ≡ failed_dlq → d.next_retry_at ≡ none
  pub scheduled_due : d.status ≡ scheduled_retry → is_some d.next_retry_at ≡ true

-- A call that buries a delivery gives a reason; `markFailed`, which can schedule a delivery without
-- a time, is left out.
abbrev IsNamed : Call → Type 0
IsNamed (buries reason) = is_empty reason ≡ false
IsNamed (fails_loosely thrown plan limit) = ⊥
IsNamed _ = Unit {0}

fails-IsConsistent :
    (now : ℕ) (draw : Ratio) (thrown : Thrown) (plan : Plan) (limit : ℕ) (d : Delivery)
    → IsConsistent d
    → IsConsistent (mark_as_failed now draw thrown plan limit d).0
unfolding mark_as_failed
fails-IsConsistent now draw thrown plan limit d v = ground arith

-- Every call keeps the fields in agreement with the status, also one that throws.
step-IsConsistent :
    (now : ℕ) (c : Call) (d : Delivery) → IsNamed c → IsConsistent d → IsConsistent (step now c d).0
unfolding step mark_as_processing mark_as_completed schedule_retry add_attempt increment_retry_count
    move_to_dead_letter_queue make
step-IsConsistent now processes d n v = ground arith
step-IsConsistent now (completes at) d n v = ground arith
step-IsConsistent now (fails draw thrown plan limit) d n v =
    fails-IsConsistent now draw thrown plan limit d v
step-IsConsistent now (schedules delay) d n v = ground arith
step-IsConsistent now (buries reason) d n v = ground arith
step-IsConsistent now (records a) d n v = ground arith
step-IsConsistent now increments d n v = ground arith
step-IsConsistent now (fails_loosely thrown plan limit) d n v = absurd n

abbrev AllNamed : List (ℕ × Call) → Type 0
AllNamed [] = Unit {0}
AllNamed (c ∷ cs) = IsNamed c.1 × AllNamed cs

run-IsConsistent :
    (cs : List (ℕ × Call)) (d : Delivery) → AllNamed cs → IsConsistent d → IsConsistent (run cs d)
unfolding run
run-IsConsistent [] d n v = v
run-IsConsistent ((now, c) ∷ cs) d n v =
    run-IsConsistent cs (step now c d).0 n.1 (step-IsConsistent now c d n.0 v)

create-IsConsistent :
    (now : ℕ) (fresh task destination : Text) (id : Option Text) (d : Delivery)
    → create now fresh task destination id ≡ some d
    → IsConsistent d
unfolding create
create-IsConsistent now fresh task destination id d h = ground arith

-- After any calls but `markFailed` on a new delivery, thrown errors included, its fields agree with
-- its status: a completed one has its time and is not due, one in the dead letter queue has its
-- error and is not due, and a scheduled one has a time at which it is due. Calls that bury it give a
-- reason.
pub run-create-IsConsistent :
    (now : ℕ) (fresh task destination : Text) (id : Option Text) (d : Delivery)
    (cs : List (ℕ × Call))
    → create now fresh task destination id ≡ some d
    → AllNamed cs
    → IsConsistent (run cs d)
run-create-IsConsistent now fresh task destination id d cs h n =
    run-IsConsistent cs d n (create-IsConsistent now fresh task destination id d h)

-- The methods that test the status first.
abbrev IsGuarded : Call → Type 0
IsGuarded processes = Unit {0}
IsGuarded (completes at) = Unit {0}
IsGuarded (fails draw thrown plan limit) = Unit {0}
IsGuarded _ = ⊥

-- An error that is handed over as a text is not the empty one.
abbrev pub has_message : Thrown → Bool
has_message (text s) = not (is_empty s)
has_message _ = true

-- When a guarded call should go through.
abbrev accepts : Call → Status → Bool
accepts processes s = may_move s processing
accepts (completes at) s = may_move s completed
accepts (fails draw thrown plan limit) s = may_move s failed_dlq && has_message thrown
accepts _ s = true

-- A guarded call throws exactly when the status or an empty error text forbids it; then it leaves
-- the delivery as it was, and otherwise it makes a status change that the worker's table allows.
pub guarded-transition :
    (now : ℕ) (c : Call) (d : Delivery)
    → IsGuarded c
    → (is_some (step now c d).1 ≡ not (accepts c d.status))
      × (accepts c d.status ≡ false → (step now c d).0 ≡ d)
      × (accepts c d.status ≡ true
          → is_valid_state_transition (get_value d.status) (get_value (step now c d).0.status)
            ≡ true)
unfolding step mark_as_processing mark_as_completed mark_as_failed make
guarded-transition now processes d g =
    rw is_valid_state_transition-get_value (ground arith, λ h. ground arith, λ h. ground arith)
guarded-transition now (completes at) d g =
    rw is_valid_state_transition-get_value (ground arith, λ h. ground arith, λ h. ground arith)
guarded-transition now (fails draw thrown plan limit) d g =
    rw is_valid_state_transition-get_value (ground arith, λ h. ground arith, λ h. ground arith)
guarded-transition now (schedules delay) d g = absurd g
guarded-transition now (buries reason) d g = absurd g
guarded-transition now (records a) d g = absurd g
guarded-transition now (fails_loosely thrown plan limit) d g = absurd g
guarded-transition now increments d g = absurd g

-- `scheduleRetry` tests no status: a finished delivery, which the table lets go nowhere, is
-- scheduled again, and then passes the guard of `markAsProcessing`.
schedule_retry_reopens :
    (now : ℕ) (delay : Delay) (d : Delivery)
    → is_final d.status ≡ true
    → (is_valid_state_transition
          (get_value d.status)
          (get_value (schedule_retry now delay d).status)
        ≡ false)
      × ((mark_as_processing now (schedule_retry now delay d)).1 ≡ none)
unfolding schedule_retry mark_as_processing
schedule_retry_reopens now delay d h = rw is_valid_state_transition-get_value (ground arith)
