-- ===== src/Daemon/Delayed.antt =====
-- src/daemon/recovery/delayed-queue-processor.ts, and src/worker/recovery/stale-job-detector.ts,
-- which queues in the same way: deliveries that are due or stuck go back to the queue. Whether the
-- queue takes a job is an argument; the repository is the one of the stored deliveries. Timers, the
-- flag against a second run, spans, counters and logs are left out.
pub mod Laws
use queue_forge.Delivery.Status.{pending, processing}
use queue_forge.Repository.Deliveries.{
  other, update_delivery_status, find_by_id, find_scheduled_retries, Row,
}
use queue_forge.Base.{
  Bool, List, Option, Text, [], codes, false, if◌then◌else◌, keep, leb, length, none, or_else, some,
  true, ℕ, ◌&&◌, ◌++◌, ◌+◌, ◌∷◌,
}
use queue_forge.Delivery.Status

-- A job of these two: its name is of the two ids, and its data has them and the count.
pub record Requeued : Type 0 where
  pub name : Text
  pub task_result_id : Text
  pub destination_id : Text
  pub attempt : ℕ

unfoldable pub job_name : Row → Text
job_name r = r.task_result_id ++ (codes ":" ++ r.destination_id)

unfoldable pub job_of : Row → Requeued
job_of r = record {
  name = job_name r;
  task_result_id = r.task_result_id;
  destination_id = r.destination_id;
  attempt = r.retry_count;
}

-- The stored deliveries and the jobs that were queued.
abbrev pub State : Type 0
State = List Row × List Requeued

mark_pending : Text → List Row → Option (List Row)
mark_pending id rs = update_delivery_status id pending other rs

requeue_after : (Requeued → Bool) → Row → Option (List Row) → State → State × Bool
requeue_after queue_ok r none s = (s, false)
requeue_after queue_ok r (some rs) (_, jobs) =
    if queue_ok (job_of r) then ((rs, jobs ++ job_of r ∷ []), true) else ((rs, jobs), false)

-- One delivery that is due: first it is stored as pending, then it is queued. The Boolean says
-- whether the loop goes on.
pub requeue : (Requeued → Bool) → Row → State → State × Bool
unfolding mark_pending requeue_after
requeue queue_ok r (rs, jobs) = requeue_after queue_ok r (mark_pending r.id rs) (rs, jobs)

-- The loop ends at the first exception.
pub requeue_all : (Requeued → Bool) → List Row → State → State
requeue_all queue_ok [] s = s
requeue_all queue_ok (r ∷ due) s =
    let (s', goes_on) = requeue queue_ok r s in
    let rest = requeue_all queue_ok due s' in if goes_on then rest else s'

-- `processScheduledRetries`, and the count that it answers with.
pub process_scheduled_retries : ℕ → (Requeued → Bool) → State → State × ℕ
process_scheduled_retries now queue_ok (rs, jobs) =
    let due = find_scheduled_retries now rs in (requeue_all queue_ok due (rs, jobs), length due)

-- `findMany` of the stale deliveries, of the worker's detector.
unfoldable find_stale : ℕ → List Row → List Row
find_stale now rs =
    keep (λ (r : Row). Status.equals r.status processing && leb (r.updated_at + 30000) now) rs

recover_found : (Requeued → Bool) → Option Row → State → State
unfolding mark_pending
recover_found queue_ok none s = s
recover_found queue_ok (some r) (rs, jobs) =
    if queue_ok (job_of r)
    then (or_else (mark_pending r.id rs) rs, jobs ++ job_of r ∷ [])
    else (rs, jobs)

-- `recover`: the delivery is queued first and then stored as pending; an exception is logged.
unfoldable recover : (Requeued → Bool) → Text → State → State
unfolding recover_found
recover queue_ok id (rs, jobs) = recover_found queue_ok (find_by_id id rs) (rs, jobs)

unfoldable recover_all : (Requeued → Bool) → List Row → State → State
recover_all queue_ok [] s = s
recover_all queue_ok (r ∷ stale) s = recover_all queue_ok stale (recover queue_ok r.id s)

-- `detectStale`, and the count that it answers with.
unfoldable detect_stale : ℕ → (Requeued → Bool) → State → State × ℕ
detect_stale now queue_ok (rs, jobs) =
    let stale = find_stale now rs in (recover_all queue_ok stale (rs, jobs), length stale)
