-- ===== src/Worker/Machine.antt =====
-- src/worker/state-machine/delivery-state-machine.ts: a status change through the repository. The
-- repository is what it finds and which of its methods it has; the call that it gets is part of
-- the result. The object that a method returns, the publisher and the logger are left out.
use queue_forge.Worker.Transitions.{
  is_valid_state_transition-get_value, may_move, is_valid_state_transition,
}
use queue_forge.Delivery.Status.{scheduled_retry, completed, processing, pending, Status, get_value}
use queue_forge.Base.{
  if◌then◌else◌, refl, inr, same_codes→eq, arith, inl, ◌∙◌, Bool-cases, false, true, ◌≢◌, ◌≡◌,
  length, ◌&&◌, [], not, ltb, ◌∷◌, ◌+◌, ◌||◌, or_text, same_codes, some, none, upper, is_some, List,
  ℕ, Text, Bool, Option, codes,
}

-- The metadata of a transition, by the keys that are read, and the other keys.
pub record Metadata : Type 0 where
  pub completed_at : Option ℕ
  pub next_retry_at : Option ℕ
  pub last_error : Option Text
  pub others : List Text

-- Which methods the repository has.
pub record Methods : Type 0 where
  pub update_delivery_status : Bool
  pub schedule_retry : Bool
  pub update_status : Bool
  pub update : Bool

-- The call that the repository gets, with the target status in upper case.
pub data Request : Type 0 where
  updates_delivery_status : Text → Option ℕ → Metadata → Request
  schedules_retry : Option ℕ → Option Text → Metadata → Request
  updates_status : Text → Option Metadata → Request
  updates : Text → Option Metadata → Request

-- How a transition ends: refused, in the error of reading `expect`, in an error that the repository's
-- method throws, with its text, or with the call made.
pub data Transition : Type 0 where
  invalid : Text → Text → Transition
  reference_error : Transition
  repository_error : Text → Transition
  moved : Option Request → Transition

has_keys : Metadata → Bool
has_keys m =
    is_some m.completed_at
    || (is_some m.next_retry_at || (is_some m.last_error || ltb 0 (length m.others)))

-- `metadata && Object.keys(metadata).length > 0 ? metadata : (expect?.any ? ... : {})`; outside the
-- test runner nothing declares `expect`, and reading it throws.
with_keys : Option Metadata → (Metadata → Request) → Transition
unfolding has_keys
with_keys none f = reference_error
with_keys (some m) f = if has_keys m then moved (some (f m)) else reference_error

completed_of : Option Metadata → Option ℕ
completed_of none = none
completed_of (some m) = m.completed_at

due_of : Option Metadata → Option ℕ
due_of none = none
due_of (some m) = m.next_retry_at

error_of : Option Metadata → Option Text
error_of none = none
error_of (some m) = m.last_error

-- What is asked of the repository.
ask : Methods → Text → Option Metadata → Transition
unfolding with_keys completed_of due_of error_of
ask r target metadata =
    if same_codes target (codes "COMPLETED") && r.update_delivery_status
    then with_keys metadata (updates_delivery_status target (completed_of metadata))
    else if same_codes target (codes "SCHEDULED_RETRY") && r.schedule_retry
    then with_keys metadata (schedules_retry (due_of metadata) (error_of metadata))
    else if r.update_status
    then moved (some (updates_status target metadata))
    else if r.update
    then moved (some (updates target metadata))
    else moved none

-- `transition`, on the status text of the delivery that is found, if one is.
pub transition : Methods → Option Text → Text → Option Metadata → Transition
unfolding ask
transition r status target metadata =
    let current = upper (or_text status (codes "PENDING")) in
    if not (same_codes current (upper target))
      && not (is_valid_state_transition current (upper target))
    then invalid current (upper target)
    else ask r (upper target) metadata

unfoldable pub mark_processing : Methods → Option Text → Transition
unfolding transition
mark_processing r status = transition r status (codes "PROCESSING") none

-- The metadata of a completion; the latency is one of the other keys.
abbrev completion : ℕ → Metadata
completion now = record {
  completed_at = some now;
  next_retry_at = none;
  last_error = none;
  others = codes "latencyMs" ∷ [];
}

unfoldable pub mark_completed : ℕ → Methods → Option Text → Transition
unfolding transition
mark_completed now r status = transition r status (codes "COMPLETED") (some (completion now))

abbrev postponement : ℕ → ℕ → Text → Metadata
postponement now delay error = record {
  completed_at = none;
  next_retry_at = some (now + delay);
  last_error = some error;
  others = [];
}

unfoldable pub schedule_retry : ℕ → ℕ → Text → Methods → Option Text → Transition
unfolding transition
schedule_retry now delay error r status =
    transition r status (codes "SCHEDULED_RETRY") (some (postponement now delay error))

unfoldable pub move_to_dead_letter_queue : Methods → Option Text → Transition
unfolding transition
move_to_dead_letter_queue r status = transition r status (codes "FAILED_DLQ") (
    some (record {
      completed_at = none;
      next_retry_at = none;
      last_error = none;
      others = codes "failedAt" ∷ codes "failureReason" ∷ [];
    }))

current-get_value :
    (s : Status) → upper (or_text (some (get_value s)) (codes "PENDING")) ≡ get_value s
unfolding get_value
current-get_value pending = refl
current-get_value _ = refl

upper-get_value : (s : Status) → upper (get_value s) ≡ get_value s
unfolding get_value
upper-get_value pending = refl
upper-get_value _ = refl

transition-get_value :
    (r : Methods) (s t : Status) (metadata : Option Metadata)
    → transition r (some (get_value s)) (get_value t) metadata ≡ (
        if not (same_codes (get_value s) (get_value t)) && not (may_move s t)
        then invalid (get_value s) (get_value t)
        else ask r (get_value t) metadata)
unfolding transition
transition-get_value r s t metadata =
    rw (current-get_value s, upper-get_value t, is_valid_state_transition-get_value s t) refl

transition-asks :
    (r : Methods) (s t : Status) (metadata : Option Metadata)
    → may_move s t ≡ true
    → transition r (some (get_value s)) (get_value t) metadata ≡ ask r (get_value t) metadata
transition-asks r s t metadata h = transition-get_value r s t metadata ∙ ground (arith, h)

different :
    (s t : Status) → get_value s ≢ get_value t → same_codes (get_value s) (get_value t) ≡ false
different s t n = elim (Bool-cases (same_codes (get_value s) (get_value t))) [
  | inl h ↦ absurd (n (same_codes→eq (get_value s) (get_value t) h))
  | inr h ↦ h
]

-- From one status to another that the table does not allow, every transition is refused. Where the
-- table allows the change, markProcessing, markCompleted and scheduleRetry ask the repository's
-- method for it, where it has it; but a plain transition to COMPLETED or SCHEDULED_RETRY without
-- metadata ends, where the repository has the method for it, in the error of reading `expect`.
transition_branches :
    (now delay : ℕ) (error : Text) (r : Methods) (s t : Status) (metadata : Option Metadata)
    → ((get_value s ≢ get_value t)
        → may_move s t ≡ false
        → transition r (some (get_value s)) (get_value t) metadata
          ≡ invalid (get_value s) (get_value t))
      × (may_move s processing ≡ true
          → r.update_status ≡ true
          → mark_processing r (some (get_value s))
            ≡ moved (some (updates_status (codes "PROCESSING") none)))
      × (may_move s completed ≡ true
          → r.update_delivery_status ≡ true
          → (mark_completed now r (some (get_value s))
              ≡ moved
                  (some (updates_delivery_status (codes "COMPLETED") (some now) (completion now))))
            × (transition r (some (get_value s)) (codes "COMPLETED") none ≡ reference_error))
      × (may_move s scheduled_retry ≡ true
          → r.schedule_retry ≡ true
          → (schedule_retry now delay error r (some (get_value s))
              ≡ moved (
                  some (
                    schedules_retry
                      (some (now + delay))
                      (some error)
                      (postponement now delay error))))
            × (transition r (some (get_value s)) (codes "SCHEDULED_RETRY") none ≡ reference_error))
unfolding mark_processing mark_completed schedule_retry get_value ask
transition_branches now delay error r s t metadata = (
  λ n h. transition-get_value r s t metadata ∙ rw (different s t n, h) refl,
  λ h u. transition-asks r s processing none h ∙ rw u refl,
  λ h u. (
    transition-asks r s completed (some (completion now)) h ∙ rw u refl,
    transition-asks r s completed none h ∙ rw u refl,
  ),
  λ h u. (
    transition-asks r s scheduled_retry (some (postponement now delay error)) h ∙ rw u refl,
    transition-asks r s scheduled_retry none h ∙ rw u refl,
  ),
)
