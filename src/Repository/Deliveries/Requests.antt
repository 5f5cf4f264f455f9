-- ===== src/Repository/Deliveries/Requests.antt =====
-- What the repository makes of the worker's state machine.
use queue_forge.Worker.Transitions.{is_valid_state_transition}
use queue_forge.Repository.Deliveries.Attempts.{find_by_id-update_row, option_map}
use queue_forge.Repository.Deliveries.{
  has_table, update_row, parse_tx, find_by_id, update, update_status, other, update_delivery_status,
  nothing, Row, Handed,
}
use queue_forge.Delivery.Status.{plain, create, Status}
use queue_forge.Base.{
  List, Option, Text, codes, none, refl, same_codes_refl, some, true, ℕ, ◌+◌, ◌∙◌, ◌≡◌,
}
use queue_forge.Worker.Machine.{
  move_to_dead_letter_queue, mark_completed, schedule_retry, updates, updates_status, moved,
  schedules_retry, updates_delivery_status, Transition, Request, Metadata, Methods,
}
use queue_forge.Delivery.Status
use queue_forge.Repository.Deliveries

-- The repository's methods, as the state machine looks for them.
abbrev pub methods : Methods
methods = record {
  update_delivery_status = true;
  schedule_retry = true;
  update_status = true;
  update = true;
}

status_named : Text → Option Status
status_named s = create (plain s)

handed : Option Metadata → Handed
handed none = nothing
handed (some m) = other

-- With a status that there is; the third argument of each method is taken for a transaction: the
-- time of completion, the error's text, and the metadata.
carry : Request → Text → Option Status → List Row → Option (List Row)
unfolding handed
carry q id none rs = none
carry (updates_delivery_status t completed_at m) id (some s) rs =
    update_delivery_status id s other rs
carry (schedules_retry due error m) id (some s) rs = Deliveries.schedule_retry id due other rs
carry (updates_status t m) id (some s) rs = update_status id s (handed m) rs
carry (updates t m) id (some s) rs = update id (λ (r : Row). record r { status = s }) rs

name_of : Request → Text
name_of (updates_delivery_status t completed_at m) = t
name_of (schedules_retry due error m) = codes "SCHEDULED_RETRY"
name_of (updates_status t m) = t
name_of (updates t m) = t

-- A request of the state machine, on the delivery with an id.
carry_out : Request → Text → List Row → Option (List Row)
unfolding carry name_of status_named
carry_out q id rs = carry q id (status_named (name_of q)) rs

pub carried : Transition → Text → List Row → Option (List Row)
carried (moved (some q)) id rs = carry_out q id rs
carried (moved none) id rs = some rs
carried _ id rs = none

update-found :
    (id : Text) (f : Row → Row) (rs : List Row) (r : Row)
    → ((q : Row) → (f q).id ≡ q.id)
    → find_by_id id rs ≡ some r
    → (rs' : List Row) × (update id f rs ≡ some rs') × (find_by_id id rs' ≡ some (f r))
unfolding update option_map
update-found id f rs r h e = (
  update_row id f rs,
  rw e refl,
  find_by_id-update_row id id f rs h ∙ rw (same_codes_refl id, e) refl,
)

-- The worker's state machine on this repository, for a stored delivery that is processing: its
-- completion is stored, but not the time of it; its retry is stored with the time that it is due,
-- but not the error; and to bury it throws, so that nothing is stored: the reason stands where the
-- repository expects a transaction.
pub carried_requests :
    (id : Text) (now delay : ℕ) (error : Text) (rs : List Row) (r : Row)
    → find_by_id id rs ≡ some r
    → ((rs' : List Row) × (carried (mark_completed now methods (some (codes "PROCESSING"))) id rs
          ≡ some rs')
        × (find_by_id id rs' ≡ some (record r { status = Status.completed })))
      × ((rs' : List Row) × (carried
              (schedule_retry now delay error methods (some (codes "PROCESSING")))
              id
              rs
            ≡ some rs')
          × (find_by_id id rs'
              ≡ some (record r {
                status = Status.scheduled_retry;
                next_retry_at = some (now + delay);
              })))
      × (carried (move_to_dead_letter_queue methods (some (codes "PROCESSING"))) id rs ≡ none)
unfolding carried carry_out mark_completed schedule_retry move_to_dead_letter_queue
    is_valid_state_transition Status.create update_delivery_status update_status parse_tx
    Deliveries.schedule_retry has_table
carried_requests id now delay error rs r e = (
  update-found id (λ (q : Row). record q { status = Status.completed }) rs r (λ q. refl) e,
  update-found id
      (λ (q : Row). record q {
        status = Status.scheduled_retry;
        next_retry_at = some (now + delay);
      })
      rs r (λ q. refl) e,
  refl,
)
