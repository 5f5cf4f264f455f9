-- ===== src/Delivery/Status.antt =====
-- src/domain/value-objects/delivery-status.vo.ts: the status of a delivery. Case mappings are
-- those of the ASCII letters.
pub mod Laws
use queue_forge.Base.{
  Bool, true, false, ◌||◌, ◌&&◌, not, Option, none, some, Text, codes, same_codes, includes, upper,
  lower, or_text, if◌then◌else◌,
}

pub data Status : Type 0 where
  pending processing completed scheduled_retry failed_dlq : Status

-- A value handed over as a status: an object with its `kind`, its `value` and what `String` makes
-- of it, or anything else by what `String` makes of it.
pub data RawStatus : Type 0 where
  plain : Text → RawStatus
  object : Option Text → Option Text → Text → RawStatus

raw_text : RawStatus → Text
raw_text (plain s) = s
raw_text (object kind value shown) = or_text kind (or_text value shown)

-- The ladder of comparisons in the constructor, on the text in upper case.
classify : Text → Option Status
classify s =
    if same_codes s (codes "PENDING")
    then some pending
    else if same_codes s (codes "PROCESSING")
    then some processing
    else if same_codes s (codes "COMPLETED")
    then some completed
    else if same_codes s (codes "SCHEDULED_RETRY") || same_codes s (codes "SCHEDULEDRETRY")
    then some scheduled_retry
    else if same_codes s (codes "FAILED_DLQ") || same_codes s (codes "FAILEDDLQ")
    then some failed_dlq
    else none

-- The constructor; `none` is its ValidationError.
unfoldable pub create : RawStatus → Option Status
unfolding classify raw_text
create raw = classify (upper (raw_text raw))

unfoldable pub get_value : Status → Text
get_value pending = codes "PENDING"
get_value processing = codes "PROCESSING"
get_value completed = codes "COMPLETED"
get_value scheduled_retry = codes "SCHEDULED_RETRY"
get_value failed_dlq = codes "FAILED_DLQ"

pub kind : Status → Text
unfolding get_value
kind s = lower (get_value s)

unfoldable pub equals : Status → Status → Bool
unfolding get_value
equals s t = same_codes (get_value s) (get_value t)

abbrev pub is_pending : Status → Bool
is_pending pending = true
is_pending _ = false

abbrev pub is_processing : Status → Bool
is_processing processing = true
is_processing _ = false

abbrev pub is_completed : Status → Bool
is_completed completed = true
is_completed _ = false

abbrev pub is_scheduled_for_retry : Status → Bool
is_scheduled_for_retry scheduled_retry = true
is_scheduled_for_retry _ = false

abbrev pub is_in_dlq : Status → Bool
is_in_dlq failed_dlq = true
is_in_dlq _ = false

abbrev pub is_final : Status → Bool
is_final completed = true
is_final failed_dlq = true
is_final _ = false

abbrev pub can_retry : Status → Bool
can_retry s = not (is_final s)

-- What the free functions of the file are given: nothing, or a value; a function is called first.
pub data LooseStatus : Type 0 where
  falsy : LooseStatus
  loose : RawStatus → LooseStatus

loose_text : RawStatus → Text
unfolding raw_text
loose_text raw = upper (raw_text raw)

pub pending_loosely : LooseStatus → Bool
unfolding loose_text
pending_loosely falsy = false
pending_loosely (loose raw) = same_codes (loose_text raw) (codes "PENDING")

pub processing_loosely : LooseStatus → Bool
unfolding loose_text
processing_loosely falsy = false
processing_loosely (loose raw) = same_codes (loose_text raw) (codes "PROCESSING")

pub completed_loosely : LooseStatus → Bool
unfolding loose_text
completed_loosely falsy = false
completed_loosely (loose raw) = same_codes (loose_text raw) (codes "COMPLETED")

pub scheduled_retry_loosely : LooseStatus → Bool
unfolding loose_text
scheduled_retry_loosely falsy = false
scheduled_retry_loosely (loose raw) =
    same_codes (loose_text raw) (codes "SCHEDULED_RETRY")
    || same_codes (loose_text raw) (codes "SCHEDULEDRETRY")

-- The names that `isFailedDLQ` looks for.
names_dlq : Text → Bool
names_dlq s =
    same_codes s (codes "FAILED_DLQ")
    || (same_codes s (codes "FAILEDDLQ")
        || (includes s (codes "DLQ") || includes s (codes "FAILED")))

pub failed_dlq_loosely : LooseStatus → Bool
unfolding names_dlq loose_text pending_loosely processing_loosely completed_loosely
    scheduled_retry_loosely
failed_dlq_loosely falsy = false
failed_dlq_loosely (loose raw) =
    if names_dlq (loose_text raw)
    then true
    else (not (pending_loosely (loose raw))
        && (not (processing_loosely (loose raw))
            && (not (completed_loosely (loose raw)) && not (scheduled_retry_loosely (loose raw)))))
