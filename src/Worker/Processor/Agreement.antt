-- ===== src/Worker/Processor/Agreement.antt =====
-- The jobs that recoveries queue, as the worker processes them.

use queue_forge.Worker.Executor.{Ended}
use queue_forge.Worker.Processor.{
  begin_job, end_job, Stats, delivery_id_of, is_valid, process_job, Job,
}
use queue_forge.Base.{Text, arith, false, is_empty, none, some, ℕ, ◌≡◌}

-- A job as the recovery of stale deliveries and the processor of delayed retries queue it: with the
-- two ids that the delivery refers to and its count, and no id of the delivery.
requeued : Text → Text → Job
requeued queue_id task = record {
  id = some queue_id;
  delivery_id = none;
  payload = some (record { delivery_id = none; id = none; task_result_id = some task; keys = 3 });
}

-- A job without an id of a delivery is processed, under the id that the queue gave the job.
requeued-id :
    {W : Type 0} (run : Text → W → W × Ended) (latency : ℕ) (queue_id task : Text) (s : Stats)
    (w : W)
    → is_empty queue_id ≡ false
    → (process_job run latency (requeued queue_id task) (s, w)).0
      ≡ (end_job latency (run queue_id w).1 (begin_job s), (run queue_id w).0)
unfolding process_job requeued is_valid delivery_id_of
requeued-id run latency queue_id task s w h = ground (arith, h)
