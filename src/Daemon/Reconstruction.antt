-- ===== src/Daemon/Reconstruction.antt =====
-- src/daemon/recovery/queue-reconstructor.ts: the queues are filled from the stored deliveries. The
-- queue's and the repository's calls succeed, and the repository has `findByStatus`. Logs are left
-- out.
use queue_forge.Repository.Deliveries.{find_by_id, find_by_status, Row}
use queue_forge.Base.{
  Bool, Bool-cases, List, Option, Text, [], ap, arith, false, if◌then◌else◌, inl, inr, is_some,
  keep, length, length-append, none, not, refl, same_codes, same_codes→eq, some, suc, true, ℕ, ◌++◌,
  ◌+◌, ◌-◌, ◌∙◌, ◌∷◌, ◌≡◌,
}
use queue_forge.Delivery.Status

-- A job of the main or the delayed queue: its own id, its data's delivery id, and its delay.
pub record Job : Type 0 where
  pub id : Option Text
  pub delivery_id : Option Text
  pub delay : ℕ

pub record Queues : Type 0 where
  pub main : List Job
  pub delayed : List Job

pub record Report : Type 0 where
  pub enqueued : ℕ
  pub main : ℕ
  pub delayed : ℕ
  pub deleted : ℕ

-- Jobs for the pending deliveries; the queue gives a job its id.
pending_jobs : List Row → List Job
pending_jobs [] = []
pending_jobs (r ∷ rs) = record { id = none; delivery_id = some r.id; delay = 0 } ∷ pending_jobs rs

enqueue_pending : List Row → Queues → Queues × ℕ
enqueue_pending rs q =
    let pending = find_by_status Status.pending rs in
    (record q { main = q.main ++ pending_jobs pending }, length pending)

-- What is left of the time until a retry is due, or five seconds where none is set.
unfoldable retry_delay : ℕ → Option ℕ → ℕ
retry_delay now none = 5000
retry_delay now (some due) = due - now

retry_jobs : ℕ → List Row → List Job
retry_jobs now [] = []
retry_jobs now (r ∷ rs) =
    record { id = none; delivery_id = some r.id; delay = retry_delay now r.next_retry_at }
    ∷ retry_jobs now rs

enqueue_scheduled_retries : ℕ → List Row → Queues → Queues × ℕ
enqueue_scheduled_retries now rs q =
    let retries = find_by_status Status.scheduled_retry rs in
    (record q { delayed = q.delayed ++ retry_jobs now retries }, length retries)

-- `job.data.deliveryId || job.id`.
pub delivery_of : Job → Option Text
delivery_of j = elim j.delivery_id [ none ↦ j.id | some id ↦ some id ]

-- A job that names a delivery which is not stored.
orphan : List Row → Option Text → Bool
orphan rs none = false
orphan rs (some id) = not (is_some (find_by_id id rs))

remove_orphaned : List Row → Queues → Queues × ℕ
unfolding orphan
remove_orphaned rs q =
    let kept = keep (λ (j : Job). not (orphan rs (delivery_of j))) q.main in
    (record q { main = kept }, length q.main - length kept)

-- `reconstruct`.
reconstruct : ℕ → List Row → Queues → Queues × Report
reconstruct now rs q =
    let (q1, m) = enqueue_pending rs q in
    let (q2, d) = enqueue_scheduled_retries now rs q1 in
    let (q3, o) = remove_orphaned rs q2 in
    (q3, record { enqueued = m + d; main = m; delayed = d; deleted = o })

-- How many of the jobs are for a delivery.
same_text : Text → Option Text → Bool
same_text id none = false
same_text id (some k) = same_codes k id

jobs_for : Text → List Job → ℕ
unfolding same_text
jobs_for id js = length (keep (λ (j : Job). same_text id (delivery_of j)) js)

rows_for : Text → List Row → ℕ
rows_for id rs = length (keep (λ (r : Row). same_codes r.id id) rs)

keep-append : (p : Job → Bool) (js ks : List Job) → keep p (js ++ ks) ≡ keep p js ++ keep p ks
keep-append p [] ks = refl
keep-append p (j ∷ js) ks = rw (keep-append p js ks) (ground arith)

jobs_for-append :
    (id : Text) (js ks : List Job) → jobs_for id (js ++ ks) ≡ jobs_for id js + jobs_for id ks
unfolding jobs_for
jobs_for-append id js ks = rw (keep-append _ js ks) (length-append {0} (keep _ js) (keep _ ks))

jobs_for-pending_jobs : (id : Text) (rs : List Row) → jobs_for id (pending_jobs rs) ≡ rows_for id rs
unfolding jobs_for pending_jobs rows_for delivery_of same_text
jobs_for-pending_jobs id [] = refl
jobs_for-pending_jobs id (r ∷ rs) = ground (arith, jobs_for-pending_jobs id rs)

jobs_for-cons :
    (id : Text) (j : Job) (js : List Job)
    → jobs_for id (j ∷ js)
      ≡ (if same_text id (delivery_of j) then suc (jobs_for id js) else jobs_for id js)
unfolding jobs_for
jobs_for-cons id j js = ground arith

other_text :
    (id : Text) (rs : List Row) (o : Option Text)
    → is_some (find_by_id id rs) ≡ true
    → orphan rs o ≡ true
    → same_text id o ≡ false
unfolding orphan same_text
other_text id rs none h e = refl
other_text id rs (some k) h e = elim (Bool-cases (same_codes k id)) [
  | inl s ↦
      let same : is_some (find_by_id k rs) ≡ true = rw (same_codes→eq k id s) h in
      ground (arith, same, e)
  | inr s ↦ s
]

-- A job for a stored delivery is kept.
jobs_for-kept :
    (id : Text) (rs : List Row) (js : List Job)
    → is_some (find_by_id id rs) ≡ true
    → jobs_for id (keep (λ (j : Job). not (orphan rs (delivery_of j))) js) ≡ jobs_for id js
jobs_for-kept id rs [] h = refl
jobs_for-kept id rs (j ∷ js) h = elim (Bool-cases (orphan rs (delivery_of j))) [
  | inl e ↦
      rw (e, jobs_for-cons id j js, other_text id rs (delivery_of j) h e) (jobs_for-kept id rs js h)
  | inr e ↦
      rw
        (
          e,
          jobs_for-cons id j js,
          jobs_for-cons id j (keep (λ (k : Job). not (orphan rs (delivery_of k))) js),
          jobs_for-kept id rs js h,
        )
        refl
]

reconstruct-jobs_for :
    (now : ℕ) (rs : List Row) (q : Queues) (id : Text)
    → is_some (find_by_id id rs) ≡ true
    → jobs_for id (reconstruct now rs q).0.main
      ≡ jobs_for id q.main + rows_for id (find_by_status Status.pending rs)
unfolding reconstruct enqueue_pending enqueue_scheduled_retries remove_orphaned
reconstruct-jobs_for now rs q id h =
    let pending = find_by_status Status.pending rs in
    jobs_for-kept id rs (q.main ++ pending_jobs pending) h
    ∙ jobs_for-append id q.main (pending_jobs pending)
    ∙ ap (λ (n : ℕ). jobs_for id q.main + n) (jobs_for-pending_jobs id pending)

length-retry_jobs : (now : ℕ) (rs : List Row) → length (retry_jobs now rs) ≡ length rs
unfolding retry_jobs
length-retry_jobs now [] = refl
length-retry_jobs now (r ∷ rs) = omega (arith, length-retry_jobs now rs)

-- A reconstruction adds a job to the main queue for each stored delivery that is pending, and one
-- to the delayed queue for each that waits for its retry, also where one is queued already, and
-- removes none of a stored delivery: run twice on the same deliveries, it queues each of them twice.
-- The report counts the jobs that it adds.
reconstruct_adds :
    (now : ℕ) (rs : List Row) (q : Queues) (id : Text)
    → is_some (find_by_id id rs) ≡ true
    → let pending = find_by_status Status.pending rs in
      let (q1, report) = reconstruct now rs q in
      let q2 = (reconstruct now rs q1).0 in
      (jobs_for id q1.main ≡ jobs_for id q.main + rows_for id pending)
      × (jobs_for id q2.main ≡ jobs_for id q.main + rows_for id pending + rows_for id pending)
      × (length q1.delayed ≡ length q.delayed + length (find_by_status Status.scheduled_retry rs))
      × (report.main ≡ length pending)
      × (report.enqueued ≡ length pending + report.delayed)
unfolding reconstruct enqueue_pending enqueue_scheduled_retries remove_orphaned
reconstruct_adds now rs q id h =
    let pending = find_by_status Status.pending rs in
    let one = reconstruct-jobs_for now rs q id h in
    let two = reconstruct-jobs_for now rs (reconstruct now rs q).0 id h in
    (
      one,
      two ∙ ap (λ (n : ℕ). n + rows_for id pending) one,
      length-append {0} q.delayed (retry_jobs now (find_by_status Status.scheduled_retry rs))
          ∙ ap (λ (n : ℕ). length q.delayed + n) (length-retry_jobs now _),
      refl,
      refl,
    )
