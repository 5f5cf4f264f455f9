-- ===== src/Worker/Executor/Moves.antt =====
-- What the state machine does to the stored status, with a repository that has every method.
use queue_forge.Worker.Executor.{stored}
use queue_forge.Worker.Transitions.{is_valid_state_transition}
use queue_forge.Delivery.Status.{pending, processing, failed_dlq, get_value, completed, Status}
use queue_forge.Worker.Machine.{
  moved, Request, invalid, Transition, move_to_dead_letter_queue, schedule_retry, mark_completed,
  mark_processing, Methods,
}
use queue_forge.Base.{Bool, Text, codes, false, if◌then◌else◌, refl, some, true, ℕ, ◌≡◌}

abbrev pub every_method : Methods
every_method = record {
  update_delivery_status = true;
  schedule_retry = true;
  update_status = true;
  update = true;
}

-- The statuses that the table lets go to PROCESSING, or that are it.
abbrev pub takes_up : Status → Bool
takes_up completed = false
takes_up failed_dlq = false
takes_up _ = true

pub mark_processing-stored :
    (s : Status)
    → stored processing (mark_processing every_method (some (get_value s))) s
      ≡ (if takes_up s then processing else s)
unfolding mark_processing get_value is_valid_state_transition
mark_processing-stored pending = refl
mark_processing-stored _ = refl

-- The state machine made the change that it was told to.
abbrev pub Moves : Transition → Type 0
Moves t = (q : Request) × (t ≡ moved (some q))

pub mark_completed-Moves :
    (now : ℕ) → Moves (mark_completed now every_method (some (get_value processing)))
unfolding mark_completed get_value is_valid_state_transition
mark_completed-Moves now = (_, refl)

pub schedule_retry-Moves :
    (now delay : ℕ) (error : Text)
    → Moves (schedule_retry now delay error every_method (some (get_value processing)))
unfolding schedule_retry get_value is_valid_state_transition
schedule_retry-Moves now delay error = (_, refl)

pub move_to_dead_letter_queue-Moves :
    Moves (move_to_dead_letter_queue every_method (some (get_value processing)))
unfolding move_to_dead_letter_queue get_value is_valid_state_transition
move_to_dead_letter_queue-Moves = (_, refl)

-- A buried delivery can only be buried again, and a completed one only be completed again.
pub move_to_dead_letter_queue-buried :
    Moves (move_to_dead_letter_queue every_method (some (get_value failed_dlq)))
unfolding move_to_dead_letter_queue get_value is_valid_state_transition
move_to_dead_letter_queue-buried = (_, refl)

pub mark_completed-buried :
    (now : ℕ)
    → mark_completed now every_method (some (get_value failed_dlq))
      ≡ invalid (codes "FAILED_DLQ") (codes "COMPLETED")
unfolding mark_completed get_value is_valid_state_transition
mark_completed-buried now = refl

pub mark_completed-again :
    (now : ℕ) → Moves (mark_completed now every_method (some (get_value completed)))
unfolding mark_completed get_value is_valid_state_transition
mark_completed-again now = (_, refl)

pub schedule_retry-completed :
    (now delay : ℕ) (error : Text)
    → schedule_retry now delay error every_method (some (get_value completed))
      ≡ invalid (codes "COMPLETED") (codes "SCHEDULED_RETRY")
unfolding schedule_retry get_value is_valid_state_transition
schedule_retry-completed now delay error = refl

pub move_to_dead_letter_queue-completed :
    move_to_dead_letter_queue every_method (some (get_value completed))
    ≡ invalid (codes "COMPLETED") (codes "FAILED_DLQ")
unfolding move_to_dead_letter_queue get_value is_valid_state_transition
move_to_dead_letter_queue-completed = refl

pub schedule_retry-buried :
    (now delay : ℕ) (error : Text)
    → schedule_retry now delay error every_method (some (get_value failed_dlq))
      ≡ invalid (codes "FAILED_DLQ") (codes "SCHEDULED_RETRY")
unfolding schedule_retry get_value is_valid_state_transition
schedule_retry-buried now delay error = refl
