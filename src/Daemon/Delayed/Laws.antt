-- ===== src/Daemon/Delayed/Laws.antt =====
-- What going back to the queue does.
use mathlib.Core.List.{append_assoc, append-nil}
use queue_forge.Delivery.Status.{pending, Status}
use queue_forge.Daemon.Delayed.{process_scheduled_retries, job_of, Requeued, requeue_all, requeue}
use queue_forge.Repository.Deliveries.Attempts.{find_by_id-update_row, option_map}
use queue_forge.Repository.Deliveries.{
  find_scheduled_retries, update, parse_tx, update_status, update_delivery_status, update_row,
  find_by_id, Row,
}
use queue_forge.Base.{
  Bool, Bool-cases, List, Option, Text, [], ap, arith, false, if◌then◌else◌, inl, inr, is_some,
  keep, length, none, refl, same_codes, same_codes_refl, some, subst, suc, sym, true, ℕ, ◌++◌, ◌||◌,
  ◌∙◌, ◌∷◌, ◌≡◌,
}

abbrev jobs_of : List Row → List Requeued
jobs_of [] = []
jobs_of (r ∷ rs) = job_of r ∷ jobs_of rs

abbrev has_row : Text → List Row → Bool
has_row id [] = false
has_row id (r ∷ rs) = same_codes r.id id || has_row id rs

-- A stored delivery's status, if there is one with the id.
abbrev pub status_of : Option Row → Option Status
status_of none = none
status_of (some r) = some r.status

abbrev AllStored : List Row → List Row → Type 0
AllStored [] rs = Unit {0}
AllStored (r ∷ due) rs = (is_some (find_by_id r.id rs) ≡ true) × AllStored due rs

as_pending : List Row → Row → List Row
as_pending rs r = update_row r.id (λ (q : Row). record q { status = pending }) rs

find-as_pending :
    (k : Text) (r : Row) (rs : List Row)
    → find_by_id k (as_pending rs r) ≡ (
        if same_codes r.id k
        then option_map (λ (q : Row). record q { status = pending }) (find_by_id k rs)
        else find_by_id k rs)
unfolding as_pending
find-as_pending k r rs =
    find_by_id-update_row r.id k (λ (q : Row). record q { status = pending }) rs (λ q. refl)

is_some-as_pending :
    (k : Text) (r : Row) (rs : List Row)
    → is_some (find_by_id k (as_pending rs r)) ≡ is_some (find_by_id k rs)
unfolding option_map
is_some-as_pending k r rs = rw (find-as_pending k r rs) (ground arith)

status-as_pending :
    (k : Text) (r : Row) (rs : List Row)
    → same_codes r.id k ≡ true
    → status_of (find_by_id k (as_pending rs r))
      ≡ (if is_some (find_by_id k rs) then some pending else none)
unfolding option_map
status-as_pending k r rs h = rw (find-as_pending k r rs, h) (ground arith)

AllStored-as_pending :
    (due rs : List Row) (r : Row) → AllStored due rs → AllStored due (as_pending rs r)
unfolding option_map
AllStored-as_pending [] rs r a = tt
AllStored-as_pending (q ∷ due) rs r a =
    (rw (find-as_pending q.id r rs) (ground (arith, a.0)), AllStored-as_pending due rs r a.1)

requeue-taken :
    (r : Row) (rs : List Row) (jobs : List Requeued)
    → is_some (find_by_id r.id rs) ≡ true
    → requeue (λ j. true) r (rs, jobs) ≡ ((as_pending rs r, jobs ++ job_of r ∷ []), true)
unfolding requeue as_pending update_delivery_status update_status parse_tx update
requeue-taken r rs jobs h = rw h refl

requeue_all-taken :
    (due rs : List Row) (jobs : List Requeued)
    → AllStored due rs
    → let s = requeue_all (λ j. true) due (rs, jobs) in
      (s.1 ≡ jobs ++ jobs_of due)
      × ((k : Text)
          → (has_row k due ≡ true
              → status_of (find_by_id k s.0)
                ≡ (if is_some (find_by_id k rs) then some pending else none))
            × (has_row k due ≡ false → find_by_id k s.0 ≡ find_by_id k rs))
unfolding requeue_all option_map
requeue_all-taken [] rs jobs a = (sym (append-nil jobs), λ k. (λ h. ground arith, λ h. refl))
requeue_all-taken (r ∷ due) rs jobs a =
    let rest =
      requeue_all-taken due (as_pending rs r) (jobs ++ job_of r ∷ [])
        (AllStored-as_pending due rs r a.1) in
    rw (requeue-taken r rs jobs a.0) (
      rest.0 ∙ append_assoc jobs (job_of r ∷ []) (jobs_of due),
      λ k. (
        λ h. elim (Bool-cases (has_row k due)) [
          | inl e ↦ (rest.1 k).0 e ∙ rw (is_some-as_pending k r rs) refl
          | inr e ↦ ap status_of ((rest.1 k).1 e) ∙ status-as_pending k r rs (ground (arith, e, h))
        ],
        λ h. (rest.1 k).1 (ground (arith, h)) ∙ find-as_pending k r rs ∙ ground (arith, h),
      ),
    )

-- What is found among the rows is among them.
AllStored-keep : (p : Row → Bool) (due rs : List Row) → AllStored due rs → AllStored (keep p due) rs
AllStored-keep p [] rs a = tt
AllStored-keep p (r ∷ due) rs a = elim (Bool-cases (p r)) [
  | inl e ↦ rw e (a.0, AllStored-keep p due rs a.1)
  | inr e ↦ rw e (AllStored-keep p due rs a.1)
]

find-cons :
    (k : Text) (r : Row) (rs : List Row)
    → is_some (find_by_id k rs) ≡ true
    → is_some (find_by_id k (r ∷ rs)) ≡ true
unfolding find_by_id
find-cons k r rs h = ground (arith, h)

AllStored-cons : (due rs : List Row) (r : Row) → AllStored due rs → AllStored due (r ∷ rs)
AllStored-cons [] rs r a = tt
AllStored-cons (q ∷ due) rs r a = (find-cons q.id r rs a.0, AllStored-cons due rs r a.1)

find-head : (r : Row) (rs : List Row) → is_some (find_by_id r.id (r ∷ rs)) ≡ true
unfolding find_by_id
find-head r rs = rw (same_codes_refl r.id) refl

AllStored-self : (rs : List Row) → AllStored rs rs
AllStored-self [] = tt
AllStored-self (r ∷ rs) = (find-head r rs, AllStored-cons rs rs r (AllStored-self rs))

AllStored-due : (now : ℕ) (rs : List Row) → AllStored (find_scheduled_retries now rs) rs
unfolding find_scheduled_retries
AllStored-due now rs = AllStored-keep _ rs rs (AllStored-self rs)

-- Where the queue takes every job, the deliveries that are due are queued once each, in their order
-- and with their counts, and stored as pending; no other stored delivery changes, and the answer is
-- the number of the queued jobs.
pub process_scheduled_retries_all :
    (now : ℕ) (rs : List Row) (jobs : List Requeued) (k : Text)
    → let (s, n) = process_scheduled_retries now (λ j. true) (rs, jobs) in
      let due = find_scheduled_retries now rs in
      (s.1 ≡ jobs ++ jobs_of due)
      × (n ≡ length due)
      × (has_row k due ≡ true
          → status_of (find_by_id k s.0)
            ≡ (if is_some (find_by_id k rs) then some pending else none))
      × (has_row k due ≡ false → find_by_id k s.0 ≡ find_by_id k rs)
unfolding process_scheduled_retries
process_scheduled_retries_all now rs jobs k =
    let (j, f) = requeue_all-taken (find_scheduled_retries now rs) rs jobs (AllStored-due now rs) in
    let (a, b) = f k in (j, refl, a, b)

requeue-refused :
    (queue_ok : Requeued → Bool) (r : Row) (rs : List Row) (jobs : List Requeued)
    → is_some (find_by_id r.id rs) ≡ true
    → queue_ok (job_of r) ≡ false
    → requeue queue_ok r (rs, jobs) ≡ ((as_pending rs r, jobs), false)
unfolding requeue as_pending update_delivery_status update_status parse_tx update
requeue-refused queue_ok r rs jobs h q = rw (h, q) refl

-- Where the queue refuses the job of the first delivery that is due, that delivery is left pending
-- with nothing queued for it, and none of the others is touched; but the answer is the number of
-- all that were due, and the delivery is not due any more.
process_scheduled_retries_refused :
    (now : ℕ) (queue_ok : Requeued → Bool) (rs : List Row) (jobs : List Requeued) (r : Row)
    (due : List Row)
    → find_scheduled_retries now rs ≡ r ∷ due
    → queue_ok (job_of r) ≡ false
    → let (s, n) = process_scheduled_retries now queue_ok (rs, jobs) in
      (s.1 ≡ jobs)
      × (n ≡ suc (length due))
      × (status_of (find_by_id r.id s.0) ≡ some pending)
      × ((k : Text) → same_codes r.id k ≡ false → find_by_id k s.0 ≡ find_by_id k rs)
unfolding process_scheduled_retries requeue_all
process_scheduled_retries_refused now queue_ok rs jobs r due e q =
    let stored = (subst (λ (x : List Row). AllStored x rs) e (AllStored-due now rs)).0 in
    rw (e, requeue-refused queue_ok r rs jobs stored q)
      (
        refl,
        refl,
        status-as_pending r.id r rs (same_codes_refl r.id) ∙ rw stored refl,
        λ k n. find-as_pending k r rs ∙ rw n refl,
      )
