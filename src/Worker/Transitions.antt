-- ===== src/Worker/Transitions.antt =====
-- src/worker/state-machine/state-transitions.ts: the table of status changes that the worker allows.
use queue_forge.Base.{
  ◌≡◌, refl, Bool, true, false, ◌||◌, Option, none, some, List, [], ◌∷◌, Text, codes, same_codes,
  upper, if◌then◌else◌,
}
use queue_forge.Delivery.Status.{
  Status, pending, processing, completed, scheduled_retry, failed_dlq, get_value,
}

-- VALID_DELIVERY_TRANSITIONS, looked up by a status name.
next_states : Text → Option (List Text)
next_states s =
    if same_codes s (codes "PENDING")
    then some (codes "PROCESSING" ∷ [])
    else if same_codes s (codes "PROCESSING")
    then some (codes "COMPLETED" ∷ codes "SCHEDULED_RETRY" ∷ codes "FAILED_DLQ" ∷ [])
    else if same_codes s (codes "SCHEDULED_RETRY")
    then some (codes "PENDING" ∷ codes "PROCESSING" ∷ [])
    else if same_codes s (codes "COMPLETED")
    then some []
    else if same_codes s (codes "FAILED_DLQ")
    then some []
    else none

has_text : Text → List Text → Bool
has_text s [] = false
has_text s (t ∷ ts) = same_codes s t || has_text s ts

in_list : Text → Option (List Text) → Bool
unfolding has_text
in_list s none = false
in_list s (some ts) = has_text s ts

unfoldable pub is_valid_state_transition : Text → Text → Bool
unfolding next_states in_list
is_valid_state_transition from to = in_list (upper to) (next_states (upper from))

-- The same table on the statuses themselves.
abbrev pub may_move : Status → Status → Bool
may_move pending processing = true
may_move processing completed = true
may_move processing scheduled_retry = true
may_move processing failed_dlq = true
may_move scheduled_retry pending = true
may_move scheduled_retry processing = true
may_move _ _ = false

-- The table by names is the table on statuses.
pub is_valid_state_transition-get_value :
    (s t : Status) → is_valid_state_transition (get_value s) (get_value t) ≡ may_move s t
unfolding is_valid_state_transition get_value
is_valid_state_transition-get_value pending pending = refl
is_valid_state_transition-get_value pending _ = refl
is_valid_state_transition-get_value processing pending = refl
is_valid_state_transition-get_value processing _ = refl
is_valid_state_transition-get_value completed pending = refl
is_valid_state_transition-get_value completed _ = refl
is_valid_state_transition-get_value scheduled_retry pending = refl
is_valid_state_transition-get_value scheduled_retry _ = refl
is_valid_state_transition-get_value failed_dlq pending = refl
is_valid_state_transition-get_value failed_dlq _ = refl
