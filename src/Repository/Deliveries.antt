-- ===== src/Repository/Deliveries.antt =====
-- src/infrastructure/repositories/delivery-repository.ts: the stored deliveries and attempts. A
-- table is the list of its rows, by their ids, and Prisma's `update` throws where it finds no row;
-- `none` is an exception. Transactions are the database's own client or one that is handed over.
pub mod Attempts
pub mod Requests
pub mod Totals
use queue_forge.Base.{
  Bool, List, Option, Text, [], codes, false, if◌then◌else◌, is_some, keep, leb, length, ltb, none,
  or_else, same_codes, some, suc, true, ℕ, ◌&&◌, ◌++◌, ◌+◌, ◌||◌, ◌∷◌,
}
use queue_forge.Delivery.Status.{failed_dlq, scheduled_retry, Status}
use queue_forge.Delivery.Status

pub record Row : Type 0 where
  pub id : Text
  pub task_result_id : Text
  pub destination_id : Text
  pub status : Status
  pub retry_count : ℕ
  pub next_retry_at : Option ℕ
  pub completed_at : Option ℕ
  pub last_error : Option Text
  pub error_category : Option Text
  pub updated_at : ℕ
  pub deleted_at : Option ℕ

pub record AttemptRow : Type 0 where
  pub delivery_id : Text
  pub attempt_number : ℕ
  pub response_status : Option ℕ
  pub response_time_ms : ℕ
  pub error_message : Option Text

pub record Tables : Type 0 where
  pub deliveries : List Row
  pub attempts : List AttemptRow

-- `findFirst` and `findUnique` by an id.
unfoldable pub find_by_id : Text → List Row → Option Row
find_by_id id [] = none
find_by_id id (r ∷ rs) = if same_codes r.id id then some r else find_by_id id rs

-- `findOne` by the two ids that a delivery refers to.
unfoldable pub find_one : Text → Text → List Row → Option Row
find_one task destination [] = none
find_one task destination (r ∷ rs) =
    if same_codes r.task_result_id task && same_codes r.destination_id destination
    then some r
    else find_one task destination rs

-- Prisma's `update`, of the row with the id.
pub update_row : Text → (Row → Row) → List Row → List Row
update_row id f [] = []
update_row id f (r ∷ rs) = if same_codes r.id id then f r ∷ rs else r ∷ update_row id f rs

unfoldable pub update : Text → (Row → Row) → List Row → Option (List Row)
update id f rs = if is_some (find_by_id id rs) then some (update_row id f rs) else none

-- What is handed over for a transaction: nothing, a transaction's client, or another value.
pub data Handed : Type 0 where
  nothing : Handed
  client : Handed
  other : Handed

-- `parseTxAndContext`: only a client is taken for a transaction.
unfoldable pub parse_tx : Handed → Handed
parse_tx client = client
parse_tx _ = nothing

-- `tx || this.prisma`: another value has no table, and reading one of its rows throws.
pub has_table : Handed → Bool
has_table other = false
has_table _ = true

unfoldable pub update_status : Text → Status → Handed → List Row → Option (List Row)
unfolding has_table
update_status id status tx rs =
    if has_table tx then update id (λ (r : Row). record r { status = status }) rs else none

unfoldable pub update_delivery_status : Text → Status → Handed → List Row → Option (List Row)
update_delivery_status id status tx rs = update_status id status (parse_tx tx) rs

unfoldable pub schedule_retry : Text → Option ℕ → Handed → List Row → Option (List Row)
unfolding has_table
schedule_retry id due tx rs =
    if has_table (parse_tx tx)
    then update id (λ (r : Row). record r { status = scheduled_retry; next_retry_at = due }) rs
    else none

unfoldable move_to_failed : Text → Text → Handed → List Row → Option (List Row)
unfolding has_table
move_to_failed id message tx rs =
    if has_table (parse_tx tx)
    then update id
        (λ (r : Row). record r {
          status = failed_dlq;
          last_error = some message;
          error_category = some (codes "FAILED");
          next_retry_at = none;
        })
        rs
    else none

unfoldable move_to_dlq : Text → Text → Handed → List Row → Option (List Row)
unfolding has_table
move_to_dlq id message tx rs =
    if has_table (parse_tx tx)
    then update id
        (λ (r : Row). record r {
          status = failed_dlq;
          last_error = some message;
          error_category = some (codes "DLQ");
          next_retry_at = none;
        })
        rs
    else none

bad_response : Option ℕ → Bool
bad_response none = false
bad_response (some c) = ltb c 100 || ltb 599 c

record_for : Option Row → Option ℕ → Option ℕ → Option Text → Tables → Option Tables
unfolding bad_response
record_for none status time message t = none
record_for (some r) status time message t =
    if bad_response status
    then none
    else some (record {
      deliveries =
          update_row r.id (λ (q : Row). record q { retry_count = suc r.retry_count }) t.deliveries;
      attempts =
          t.attempts
          ++ record {
            delivery_id = r.id;
            attempt_number = suc r.retry_count;
            response_status = status;
            response_time_ms = or_else time 0;
            error_message = message;
          }
            ∷ [];
    })

-- `recordAttempt`: the attempt is stored, and its number is the row's new count.
pub record_attempt : Text → Option ℕ → Option ℕ → Option Text → Tables → Option Tables
unfolding record_for
record_attempt id status time message t =
    record_for (find_by_id id t.deliveries) status time message t

-- `findMany` of one status, and of the retries that are due.
unfoldable pub find_by_status : Status → List Row → List Row
find_by_status s rs = keep (λ (r : Row). Status.equals r.status s) rs

is_due : ℕ → Option ℕ → Bool
is_due now none = false
is_due now (some t) = leb t now

unfoldable pub find_scheduled_retries : ℕ → List Row → List Row
unfolding is_due
find_scheduled_retries now rs =
    keep (λ (r : Row). Status.equals r.status scheduled_retry && is_due now r.next_retry_at) rs

pub record Counts : Type 0 where
  pub pending : ℕ
  pub processing : ℕ
  pub completed : ℕ
  pub scheduled_retry : ℕ
  pub failed_dlq : ℕ

pub count : Status → List Row → ℕ
count s rs = length (find_by_status s rs)

pub count_by_status : List Row → Counts
count_by_status rs = record {
  pending = count Status.pending rs;
  processing = count Status.processing rs;
  completed = count Status.completed rs;
  scheduled_retry = count Status.scheduled_retry rs;
  failed_dlq = count Status.failed_dlq rs;
}
