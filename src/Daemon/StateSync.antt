-- ===== src/Daemon/StateSync.antt =====
-- src/daemon/recovery/state-sync.ts: the stored deliveries and the jobs of the queue are brought
-- together. Whether the queue takes a job is an argument, since it has rules of its own for the ids
-- that it is given; the repository's calls and `remove` succeed. The timer, the flag against a second run, counters and logs are left out.
use queue_forge.Delivery.Status.{pending}
use queue_forge.Daemon.Delayed.{job_name}
use queue_forge.Repository.Deliveries.{find_by_status, find_one, Row}
use queue_forge.Base.{
  Bool, List, Option, Text, [], false, if◌then◌else◌, is_empty, is_some, keep, length, none, not,
  same_codes, some, suc, true, ℕ, ◌&&◌, ◌++◌, ◌+◌, ◌-◌, ◌==◌, ◌||◌, ◌∷◌,
}

-- A job of the queue by its id, if it has one.
pub record Queued : Type 0 where
  pub job_id : Option Text
  pub task_result_id : Text
  pub destination_id : Text
  pub attempt : ℕ

same_id : Text → Option Text → Bool
same_id id none = false
same_id id (some k) = same_codes k id

pub has_id : Text → List Queued → Bool
unfolding same_id
has_id id [] = false
has_id id (j ∷ js) = same_id id j.job_id || has_id id js

-- A job that the daemon adds has the name for its id.
pub added : Row → Queued
added r = record {
  job_id = some (job_name r);
  task_result_id = r.task_result_id;
  destination_id = r.destination_id;
  attempt = r.retry_count;
}

pub record Synced : Type 0 where
  pub jobs : List Queued
  pub synced : ℕ
  pub errors : ℕ

-- One pending delivery; the first Boolean says whether the snapshot has a job of its name.
add_one : (Queued → Bool) → Bool → Row → Synced → Synced
add_one queue_ok true r y = y
add_one queue_ok false r y =
    if queue_ok (added r)
    then record { jobs = y.jobs ++ added r ∷ []; synced = suc y.synced; errors = y.errors }
    else record y { errors = suc y.errors }

pub add_missing : (Queued → Bool) → List Queued → List Row → Synced → Synced
unfolding add_one
add_missing queue_ok snapshot [] y = y
add_missing queue_ok snapshot (r ∷ rs) y =
    add_missing queue_ok snapshot rs (add_one queue_ok (has_id (job_name r) snapshot) r y)

-- The two parts of `id.split(':')` that are read: up to the first colon, and from there to the next.
before : Text → Text
before [] = []
before (c ∷ cs) = if c == b':' then [] else c ∷ before cs

behind : Text → Text
behind [] = []
behind (c ∷ cs) = if c == b':' then cs else behind cs

-- A job without an id or without both parts is left alone.
orphaned_row : Option Row → Bool
orphaned_row none = true
orphaned_row (some r) = is_some r.deleted_at

unfoldable pub is_orphan : List Row → Option Text → Bool
unfolding before behind orphaned_row
is_orphan rs none = false
is_orphan rs (some id) =
    not (is_empty (before id))
    && (not (is_empty (before (behind id)))
        && orphaned_row (find_one (before id) (before (behind id)) rs))

-- The jobs of the snapshot are looked through, in their order; those of no stored delivery go.
pub prune : List Row → List Queued → List Queued
unfolding is_orphan
prune rs jobs = keep (λ (j : Queued). not (is_orphan rs j.job_id)) jobs

-- `sync`, on the stored deliveries and the jobs of the queue.
pub sync : (Queued → Bool) → List Row → List Queued → Synced
unfolding add_missing prune
sync queue_ok rs jobs =
    let y =
      add_missing queue_ok jobs (find_by_status pending rs)
        (record { jobs = []; synced = 0; errors = 0 }) in
    record {
      jobs = prune rs jobs ++ y.jobs;
      synced = y.synced + (length jobs - length (prune rs jobs));
      errors = y.errors;
    }
