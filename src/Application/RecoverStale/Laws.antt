-- ===== src/Application/RecoverStale/Laws.antt =====
-- What the recovery of stale deliveries makes of them.
use queue_forge.Delivery.Failure
use queue_forge.Delivery.Status.{is_processing, failed_dlq, scheduled_retry}
use queue_forge.Delivery.Entity.{
  add_domain_event, move_to_dead_letter_queue, mark_failed, Delivery, schedule_retry,
  mark_as_processing,
}
use queue_forge.Application.ScheduleRetry.{Job}
use queue_forge.Application.RecoverStale.{is_stale, recover_stale, rescue_all, reason, rescue}
use queue_forge.Base.{
  Bool, List, [], arith, false, if◌then◌else◌, is_some, keep, leb, length, ltb, max, none, refl,
  some, true, ℕ, ◌&&◌, ◌*◌, ◌+◌, ◌-◌, ◌<◌, ◌^◌, ◌∷◌, ◌≡◌, ◌≤◌,
}

rescue-revives :
    (now : ℕ) (queue_ok : Job → Bool) (save_ok : Delivery → Bool) (d : Delivery)
    → d.retry_count ≤ 5
    → let r = rescue now queue_ok save_ok d in
      (r.delivery.status ≡ scheduled_retry) × (r.delivery.retry_count ≡ max 1 d.retry_count)
unfolding rescue schedule_retry mark_failed Failure.make move_to_dead_letter_queue add_domain_event
    reason
rescue-revives now queue_ok save_ok d h = (ground arith, ground arith)

-- The times of a crash: when a worker took the delivery, and when the recovery found it.
pub record Crash : Type 0 where
  pub taken : ℕ
  pub found : ℕ

crash : (Job → Bool) → (Delivery → Bool) → Crash → Delivery → Delivery
crash queue_ok save_ok c d =
    (rescue c.found queue_ok save_ok (mark_as_processing c.taken d).0).delivery

pub crash_all : (Job → Bool) → (Delivery → Bool) → List Crash → Delivery → Delivery
crash_all queue_ok save_ok [] d = d
crash_all queue_ok save_ok (c ∷ cs) d = crash_all queue_ok save_ok cs (crash queue_ok save_ok c d)

crash-revives :
    (queue_ok : Job → Bool) (save_ok : Delivery → Bool) (c : Crash) (d : Delivery)
    → d.retry_count ≤ 5
    → let d' = crash queue_ok save_ok c d in
      (d'.status ≡ scheduled_retry) × (d'.retry_count ≡ max 1 d.retry_count)
unfolding crash mark_as_processing
crash-revives queue_ok save_ok c d h =
    let (s, n) =
      rescue-revives c.found queue_ok save_ok (mark_as_processing c.taken d).0 (ground arith) in
    (s, ground arith)

-- A delivery whose workers crash again and again is never given up: with a count of at most five it
-- is scheduled for a retry after any number of crashes, and its count is at most the larger of 1 and
-- what it was; so it never reaches the dead letter queue, whatever the queue and the repository do.
pub crash_all_never_buries :
    (queue_ok : Job → Bool) (save_ok : Delivery → Bool) (cs : List Crash) (d : Delivery)
    → d.retry_count ≤ 5
    → d.status ≡ scheduled_retry
    → let d' = crash_all queue_ok save_ok cs d in
      (d'.status ≡ scheduled_retry) × (d'.retry_count ≤ max 1 d.retry_count)
unfolding crash_all
crash_all_never_buries queue_ok save_ok [] d h s = (s, omega arith)
crash_all_never_buries queue_ok save_ok (c ∷ cs) d h s =
    let (s', n) = crash-revives queue_ok save_ok c d h in
    let (s'', n') =
      crash_all_never_buries queue_ok save_ok cs (crash queue_ok save_ok c d) (omega arith) s' in
    (s'', omega arith)

-- The recovery of one delivery: up to a count of five it is scheduled again, and a job that the
-- queue takes for it waits 2^(count - 1) seconds, a count of 0 taken for 1; above five it is buried,
-- with nothing due, no job and not counted as recovered. Where queue and repository accept
-- everything, it is saved in the status it ends in and counted once; where only the repository
-- refuses a revived one, its job is in the queue, and it is counted as recovered and as failed.
pub rescue_branches :
    (now : ℕ) (queue_ok : Job → Bool) (save_ok : Delivery → Bool) (d : Delivery)
    → let r = rescue now queue_ok save_ok d in
      (d.retry_count ≤ 5
        → (r.delivery.status ≡ scheduled_retry)
          × ((j : Job)
              → r.job ≡ some j
              → (j.delay ≡ 2 ^ (max 1 d.retry_count - 1) * 1000)
                × (j.destination_id ≡ d.destination_id)))
      × (5 < d.retry_count
          → (r.delivery.status ≡ failed_dlq)
            × (r.delivery.next_retry_at ≡ none)
            × (r.job ≡ none)
            × (r.recovered ≡ 0))
      × (let r = rescue now (λ j. true) (λ e. true) d in
          (r.recovered + r.failed ≡ 1)
          × (is_some r.saved ≡ true)
          × ((e : Delivery) → r.saved ≡ some e → e.status ≡ r.delivery.status))
      × (d.retry_count ≤ 5
          → let r = rescue now (λ j. true) (λ e. false) d in
            (r.saved ≡ none) × (r.recovered ≡ 1) × (r.failed ≡ 1) × (is_some r.job ≡ true))
unfolding rescue schedule_retry mark_failed Failure.make move_to_dead_letter_queue add_domain_event
    reason
rescue_branches now queue_ok save_ok d = (
  λ h. (ground arith, λ j e. (ground arith, ground arith)),
  λ h. (ground arith, ground arith, ground arith, ground arith),
  (ground arith, ground arith, λ e h. ground arith),
  λ h. (ground arith, ground arith, ground arith, ground arith),
)

rescue-once :
    (now : ℕ) (d : Delivery)
    → let r = rescue now (λ j. true) (λ e. true) d in
      (r.recovered ≡ (if leb d.retry_count 5 then 1 else 0))
      × (r.failed ≡ (if leb d.retry_count 5 then 0 else 1))
unfolding rescue schedule_retry mark_failed Failure.make move_to_dead_letter_queue add_domain_event
    reason
rescue-once now d = (ground arith, ground arith)

rescue_all-counts :
    (now : ℕ) (ds : List Delivery)
    → let r = rescue_all now (λ j. true) (λ e. true) ds in
      (r.recovered ≡ length (keep (λ (d : Delivery). leb d.retry_count 5) ds))
      × (r.recovered + r.failed ≡ length ds)
unfolding rescue_all
rescue_all-counts now [] = (refl, refl)
rescue_all-counts now (d ∷ ds) =
    let (a, b) = rescue-once now d in
    let (x, y) = rescue_all-counts now ds in (ground arith, ground arith)

-- Where queue and repository accept everything, the two counts of a recovery together are the
-- number of the processing deliveries last changed longer ago than the time limit, and the
-- recovered ones are those of them with a count of at most five.
recover_stale_counts :
    (now timeout : ℕ) (ds : List Delivery)
    → let r = recover_stale now timeout (λ j. true) (λ e. true) ds in
      let stale =
        keep (λ (d : Delivery). is_processing d.status && ltb (d.updated_at + timeout) now) ds in
      (r.recovered + r.failed ≡ length stale)
      × (r.recovered ≡ length (keep (λ (d : Delivery). leb d.retry_count 5) stale))
unfolding recover_stale is_stale
recover_stale_counts now timeout ds =
    let (a, b) = rescue_all-counts now (keep (is_stale now timeout) ds) in (b, a)
