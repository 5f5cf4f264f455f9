-- ===== src/Worker/Processor.antt =====
-- src/worker/job-processor.ts: a job of the queue, its validation and its statistics. What the
-- executor comes to, and the latency that is measured, are arguments; logs are left out, and so is
-- `findOne`, whose answer is not used.
pub mod Statistics
pub mod Agreement
use queue_forge.Delivery.Status.{completed, scheduled_retry, failed_dlq, Status}
use queue_forge.Worker.Executor.{escapes, returns, Ended}
use queue_forge.Worker.Classifier.{ErrorCategory}
use queue_forge.Base.{
  Bool, Option, Text, codes, false, if◌then◌else◌, is_empty, ltb, none, not, or_text, some, suc, ℕ,
  ◌&&◌, ◌+◌, ◌-◌, ◌/◌, ◌||◌,
}

-- What is read of a job's data, with the number of its keys.
pub record Data : Type 0 where
  pub delivery_id : Option Text
  pub id : Option Text
  pub task_result_id : Option Text
  pub keys : ℕ

pub record Job : Type 0 where
  pub id : Option Text
  pub delivery_id : Option Text
  pub payload : Option Data

-- An empty text counts as nothing.
is_given : Option Text → Bool
is_given none = false
is_given (some t) = not (is_empty t)

any_of : Data → Bool
unfolding is_given
any_of d = is_given d.delivery_id || (is_given d.id || is_given d.task_result_id)

valid_data : Option Data → Bool → Bool
unfolding any_of
valid_data none named = named
valid_data (some d) named = (named || any_of d) && ltb 0 d.keys

-- `validate`, which throws where this is false.
pub is_valid : Job → Bool
unfolding valid_data is_given
is_valid j = valid_data j.payload (is_given j.id || is_given j.delivery_id)

first_text : Option Text → Text → Text
first_text o t = or_text o t

data_id : Option Data → Text → Text
unfolding first_text
data_id none other = other
data_id (some d) other = first_text d.delivery_id (first_text d.id other)

-- The delivery's id: the data's, or the job's own.
pub delivery_id_of : Job → Text
unfolding data_id first_text
delivery_id_of j = data_id j.payload (first_text j.id (codes "unknown"))

pub record Stats : Type 0 where
  pub jobs_processed : ℕ
  pub jobs_failed : ℕ
  pub total_latency : ℕ
  pub active_jobs : ℕ

unfoldable pub fresh : Stats
fresh = record { jobs_processed = 0; jobs_failed = 0; total_latency = 0; active_jobs = 0 }

pub begin_job : Stats → Stats
begin_job s = record s { active_jobs = suc s.active_jobs }

-- The status that is reported: of the categories only PERMANENT is told from the others.
by_category : Option ErrorCategory → Status
by_category (some ErrorCategory.permanent) = failed_dlq
by_category _ = scheduled_retry

pub reported_status : Ended → Status
unfolding by_category
reported_status (returns r) = if r.success then completed else by_category r.category
reported_status (escapes t) = failed_dlq

abbrev succeeded : Ended → Bool
succeeded (returns r) = r.success
succeeded (escapes t) = false

-- The try block from the executor's end on, and the `finally` block.
pub end_job : ℕ → Ended → Stats → Stats
end_job latency e s = record {
  jobs_processed = (if succeeded e then suc s.jobs_processed else s.jobs_processed);
  jobs_failed = (if succeeded e then s.jobs_failed else suc s.jobs_failed);
  total_latency = s.total_latency + latency;
  active_jobs = s.active_jobs - 1;
}

pub record Processed : Type 0 where
  pub delivery_id : Text
  pub status : Status

-- `processJob`; `none` is the exception of `validate`. What the executor does to the worker's world
-- depends on the delivery's id.
pub process_job :
    {W : Type 0} → (Text → W → W × Ended) → ℕ → Job → Stats × W → (Stats × W) × Option Processed
process_job run latency j (s, w) =
    if is_valid j
    then (let (w', e) = run (delivery_id_of j) w in
        (
          (end_job latency e (begin_job s), w'),
          some (record { delivery_id = delivery_id_of j; status = reported_status e }),
        ))
    else ((s, w), none)

-- `getStats`: the average, rounded down.
pub average_latency : Stats → ℕ
average_latency s =
    if ltb 0 (s.jobs_processed + s.jobs_failed)
    then s.total_latency / (s.jobs_processed + s.jobs_failed)
    else 0
