-- ===== src/Application/RecoverStale.antt =====
-- src/application/services/recover-stale-jobs.service.ts: deliveries left in processing by a worker
-- that crashed. Deliveries are the domain's entities, read by `findAll` and the entity's getters,
-- and the queue is one with `enqueueDelivery`; whether the queue takes a job and the repository a
-- delivery is an argument. Counters and logs are left out.
pub mod Laws
use queue_forge.Application.HandleFailure.{other}
use queue_forge.Delivery.Status.{is_processing}
use queue_forge.Application.ScheduleRetry.{Job}
use queue_forge.Delivery.Entity.{
  move_to_dead_letter_queue, after, schedule_retry, Thrown, flag, mark_failed, Outcome,
  add_domain_event, Delivery,
}
use queue_forge.Base.{
  Bool, List, Option, Text, [], codes, if◌then◌else◌, keep, leb, ltb, none, some, suc, true, ℕ,
  ◌&&◌, ◌*◌, ◌+◌, ◌-◌, ◌/◌, ◌^◌, ◌∷◌,
}
use queue_forge.Base.Int.{pos}

-- What one stale delivery comes to: the delivery as it is left, the job that the queue took, what
-- was saved of it, and by how much the two counts grow.
pub record Rescue : Type 0 where
  pub delivery : Delivery
  pub job : Option Job
  pub saved : Option Delivery
  pub recovered : ℕ
  pub failed : ℕ

pub record Recovery : Type 0 where
  pub rescues : List Rescue
  pub recovered : ℕ
  pub failed : ℕ

pub reason : Text
reason = codes "Worker crash / processing timeout detected"

-- The filter of `findAll`: processing, and last changed before the threshold.
pub is_stale : ℕ → ℕ → Delivery → Bool
is_stale now timeout d = is_processing d.status && ltb (d.updated_at + timeout) now

abbrev rescue_delay : ℕ → ℕ
rescue_delay count = 2 ^ (count - 1) * 1000

abbrev rescue_job : Delivery → Job
rescue_job d = record {
  task_result_id = d.task_result_id;
  destination_id = d.destination_id;
  attempt = d.retry_count;
  delay = rescue_delay d.retry_count;
}

crashed : Delivery → Delivery
crashed d =
    add_domain_event
      (record { name = codes "WorkerCrashedEvent"; count = d.retry_count; message = codes "" }) d

-- The call of `save` and what follows it. The count of recovered ones is not taken back when the
-- call throws.
save_rescue : (Delivery → Bool) → Option Job → ℕ → ℕ → Delivery → Rescue
unfolding crashed
save_rescue save_ok job recovered failed d =
    if save_ok d
    then record {
      delivery = crashed d;
      job = job;
      saved = some d;
      recovered = recovered;
      failed = failed;
    }
    else record {
      delivery = d;
      job = job;
      saved = none;
      recovered = recovered;
      failed = suc failed;
    }

-- An exception before `save`.
abort_rescue : Delivery → Rescue
abort_rescue d = record { delivery = d; job = none; saved = none; recovered = 0; failed = 1 }

bury_rescue : (Delivery → Bool) → Outcome → Rescue
unfolding save_rescue abort_rescue
bury_rescue save_ok (d, some e) = abort_rescue d
bury_rescue save_ok (d, none) = save_rescue save_ok none 0 1 d

-- After `markFailed`: its count of retries decides.
rescue_marked : ℕ → (Job → Bool) → (Delivery → Bool) → Outcome → Rescue
unfolding save_rescue abort_rescue bury_rescue reason
rescue_marked now queue_ok save_ok (d, some e) = abort_rescue d
rescue_marked now queue_ok save_ok (d, none) =
    if leb d.retry_count 5
    then (let d' = schedule_retry now (after (pos (rescue_delay d.retry_count))) d in
        if queue_ok (rescue_job d)
        then save_rescue save_ok (some (rescue_job d)) 1 0 d'
        else abort_rescue d')
    else bury_rescue save_ok (move_to_dead_letter_queue now reason d)

-- The body of the loop over the stale deliveries.
pub rescue : ℕ → (Job → Bool) → (Delivery → Bool) → Delivery → Rescue
unfolding rescue_marked reason
rescue now queue_ok save_ok d =
    rescue_marked now queue_ok save_ok
      (mark_failed now (Thrown.other (some reason)) (flag true) 5 d)

pub rescue_all : ℕ → (Job → Bool) → (Delivery → Bool) → List Delivery → Recovery
rescue_all now queue_ok save_ok [] = record { rescues = []; recovered = 0; failed = 0 }
rescue_all now queue_ok save_ok (d ∷ ds) =
    let r = rescue now queue_ok save_ok d in
    let rest = rescue_all now queue_ok save_ok ds in
    record {
      rescues = r ∷ rest.rescues;
      recovered = r.recovered + rest.recovered;
      failed = r.failed + rest.failed;
    }

-- `recoverStale`, on the deliveries that `findAll` answers with.
pub recover_stale : ℕ → ℕ → (Job → Bool) → (Delivery → Bool) → List Delivery → Recovery
recover_stale now timeout queue_ok save_ok ds =
    rescue_all now queue_ok save_ok (keep (is_stale now timeout) ds)
