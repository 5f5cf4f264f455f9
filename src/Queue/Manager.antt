-- ===== src/Queue/Manager.antt =====
-- src/infrastructure/queue/queue-manager.ts: jobs in the main, the delayed and the dead letter queue.
-- A queue is the list of its jobs, and each numbers its own; whether it takes a job is an argument,
-- and the other calls succeed. Delivery ids do not look like dates. Spans, counters, options and
-- logs are left out, and so are pausing, draining and the counts, which the queues do themselves.
pub mod Moves
use queue_forge.Security.Headers.{trim}
use queue_forge.Queue.Serializer.{parse_dates, convert_dates, Dates, Value}
use queue_forge.Base.{
  Bool, List, Option, Text, [], if◌then◌else◌, is_empty, map, none, same_codes, some, ℕ, ◌++◌, ◌+◌,
  ◌∷◌,
}
use mathlib.Core.Option

-- The data of a job, serialized.
pub record Payload : Type 0 where
  pub delivery_id : Text
  pub payload : Value
  pub dlq_reason : Option Text

pub record Job : Type 0 where
  pub id : Text
  pub name : Text
  pub content : Payload
  pub delay : ℕ

pub record Queues : Type 0 where
  pub main : List Job
  pub delayed : List Job
  pub dlq : List Job

pub data Place : Type 0 where
  in_main in_delayed in_dlq : Place

pub data QueueError : Type 0 where
  not_found invalid infrastructure refused : QueueError

pub find_id : Text → List Job → Option Job
find_id id [] = none
find_id id (j ∷ js) = if same_codes j.id id then some j else find_id id js

-- `job.remove()`.
pub remove_id : Text → List Job → List Job
remove_id id [] = []
remove_id id (j ∷ js) = if same_codes j.id id then js else j ∷ remove_id id js

pub in_place : Place → Option Job → Option (Job × Place)
in_place p none = none
in_place p (some j) = some (j, p)

pub first_found : Option (Job × Place) → Option (Job × Place) → Option (Job × Place)
first_found none o = o
first_found (some x) o = some x

-- The queues are asked in this order.
unfoldable pub find_job : Text → Queues → Option (Job × Place)
unfolding in_place first_found find_id
find_job id q =
    first_found (in_place in_main (find_id id q.main)) (
      first_found (in_place in_delayed (find_id id q.delayed)) (in_place in_dlq (find_id id q.dlq)))

pub take_out : Text → Place → Queues → Queues
unfolding remove_id
take_out id in_main q = record q { main = remove_id id q.main }
take_out id in_delayed q = record q { delayed = remove_id id q.delayed }
take_out id in_dlq q = record q { dlq = remove_id id q.dlq }

abbrev pub Answer : Type 0
Answer = Queues × Option QueueError

pub cancel_found : Text → Option (Job × Place) → Queues → Answer
unfolding take_out
cancel_found id none q = (q, some not_found)
cancel_found id (some (j, p)) q = (take_out id p q, none)

pub cancel_job : Text → Queues → Answer
unfolding cancel_found find_job
cancel_job id q = cancel_found id (find_job id q) q

module _ (D : Dates) where
  -- What is sent again: the data comes out of one queue and goes into another.
  pub again : Payload → Option Payload
  again c = Option.map (λ v. record c { payload = v }) (convert_dates D (parse_dates D c.payload))

  pub add_delayed : Bool → Text → ℕ → Option Payload → Queues → Answer
  add_delayed ok fresh delay none q = (q, some infrastructure)
  add_delayed ok fresh delay (some c) q =
      if ok
      then (
        record q {
          delayed =
              q.delayed
              ++ record { id = fresh; name = c.delivery_id; content = c; delay = delay } ∷ [];
        },
        none,
      )
      else (q, some infrastructure)

  -- `enqueueDelayedJob`, which checks the data before it serializes it.
  pub enqueue_delayed_job : Bool → Text → ℕ → Payload → Queues → Answer
  unfolding add_delayed again
  enqueue_delayed_job ok fresh delay c q =
      if is_empty (trim c.delivery_id)
      then (q, some invalid)
      else add_delayed ok fresh delay (again c) q

  pub delay_found : Bool → Text → Text → ℕ → Option (Job × Place) → Queues → Answer
  unfolding enqueue_delayed_job take_out
  delay_found ok fresh id delay none q = (q, some not_found)
  delay_found ok fresh id delay (some (j, p)) q =
      enqueue_delayed_job ok fresh delay j.content (take_out id p q)

  -- `fresh` is the id that the delayed queue gives.
  pub move_to_delayed : Bool → Text → Text → ℕ → Queues → Answer
  unfolding delay_found find_job
  move_to_delayed ok fresh id delay q = delay_found ok fresh id delay (find_job id q) q

  pub bury : Bool → Text → Text → Option Payload → Queues → Answer
  bury ok fresh reason none q = (q, some refused)
  bury ok fresh reason (some c) q =
      if ok
      then (
        record q {
          dlq =
              q.dlq
              ++ record {
                id = fresh;
                name = c.delivery_id;
                content = record c { dlq_reason = some reason };
                delay = 0;
              }
                ∷ [];
        },
        none,
      )
      else (q, some refused)

  pub dlq_found : Bool → Text → Text → Text → Option (Job × Place) → Queues → Answer
  unfolding bury again take_out
  dlq_found ok fresh id reason none q = (q, some not_found)
  dlq_found ok fresh id reason (some (j, p)) q =
      bury ok fresh reason (again j.content) (take_out id p q)

  -- The time of the burial is left out.
  pub move_to_dlq : Bool → Text → Text → Text → Queues → Answer
  unfolding dlq_found find_job
  move_to_dlq ok fresh id reason q = dlq_found ok fresh id reason (find_job id q) q
