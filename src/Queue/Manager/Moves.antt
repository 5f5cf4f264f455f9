-- ===== src/Queue/Manager/Moves.antt =====
-- Where jobs go.
use queue_forge.Security.Headers.{trim}
use queue_forge.Queue.Serializer.{parse_dates, convert_dates, Value, Dates}
use queue_forge.Queue.Manager.{
  in_dlq, in_delayed, in_main, again, enqueue_delayed_job, delay_found, dlq_found, infrastructure,
  refused, Place, in_place, move_to_delayed, not_found, first_found, move_to_dlq, cancel_found, Job,
  find_job, remove_id, cancel_job, take_out, find_id, Queues,
}
use queue_forge.Base.{
  Bool, Bool-cases, List, Option, Text, [], arith, false, inl, inr, is_empty, length, length-append,
  none, refl, same_codes, some, suc, true, ℕ, ◌++◌, ◌+◌, ◌∷◌, ◌≡◌,
}

pub total : Queues → ℕ
total q = length q.main + length q.delayed + length q.dlq

length-remove_id :
    (id : Text) (js : List Job) (j : Job)
    → find_id id js ≡ some j
    → suc (length (remove_id id js)) ≡ length js
unfolding find_id remove_id
length-remove_id id [] j h = cc
length-remove_id id (k ∷ js) j h = elim (Bool-cases (same_codes k.id id)) [
  | inl y ↦ rw y refl
  | inr y ↦ rw y (omega (arith, length-remove_id id js j (rw y at h)))
]

pick : Place → Option Job → Option Job → Option Job → Option Job
pick in_main a b c = a
pick in_delayed a b c = b
pick in_dlq a b c = c

found_there :
    (p : Place) (a b c : Option Job) (j : Job)
    → first_found (in_place in_main a) (first_found (in_place in_delayed b) (in_place in_dlq c))
      ≡ some (j, p)
    → pick p a b c ≡ some j
unfolding first_found in_place pick
found_there p (some x) b c j h = ground arith
found_there p none (some x) c j h = ground arith
found_there p none none (some x) j h = ground arith
found_there p none none none j h = cc

total-take_out :
    (id : Text) (p : Place) (q : Queues) (j : Job)
    → find_job id q ≡ some (j, p)
    → suc (total (take_out id p q)) ≡ total q
unfolding total take_out find_job pick
total-take_out id in_main q j h =
    omega (arith, length-remove_id id q.main j (found_there in_main _ _ _ j h))
total-take_out id in_delayed q j h =
    omega
      (arith, length-remove_id id q.delayed j (found_there in_delayed (find_id id q.main) _ _ j h))
total-take_out id in_dlq q j h = omega (
  arith,
  length-remove_id id q.dlq j (found_there in_dlq (find_id id q.main) (find_id id q.delayed) _ j h),
)

-- The last job of a queue.
pub Ends : List Job → Job → Type 0
Ends js j = (rest : List Job) × (js ≡ rest ++ j ∷ [])

-- A job in the main queue hides every job of the other queues that has its id, and each queue
-- numbers its own: cancelling then removes the main queue's job alone. Where no queue has a job of
-- the id, nothing changes and an error is thrown; else one job is gone.
cancel_job_first :
    (id : Text) (q : Queues)
    → ((j : Job)
        → find_id id q.main ≡ some j
        → cancel_job id q ≡ (record q { main = remove_id id q.main }, none))
      × (find_job id q ≡ none → cancel_job id q ≡ (q, some not_found))
      × ((j : Job) (p : Place)
          → find_job id q ≡ some (j, p)
          → ((cancel_job id q).1 ≡ none) × (suc (total (cancel_job id q).0) ≡ total q))
unfolding cancel_job cancel_found find_job
cancel_job_first id q =
    (λ j h. rw (h) refl, λ h. rw h refl, λ j p h. rw h (refl, total-take_out id p q j h))

module _ (D : Dates) where
  -- A job that is moved to the dead letter queue or the delayed queue is removed before it is
  -- added: where the queue takes it, no job is lost and it stands last in that queue, with its data
  -- and the reason or the delay; where the queue refuses it, an error is thrown and the job is gone.
  -- Its data can be read and serialized again, and it has the id of a delivery.
  pub moves_lose_refused :
      (ok : Bool) (fresh id reason : Text) (delay : ℕ) (q : Queues) (j : Job) (p : Place)
      (v : Value)
      → find_job id q ≡ some (j, p)
      → convert_dates D (parse_dates D j.content.payload) ≡ some v
      → is_empty (trim j.content.delivery_id) ≡ false
      → let (buried, e) = move_to_dlq D ok fresh id reason q in
        let (postponed, f) = move_to_delayed D ok fresh id delay q in
        (ok ≡ true
          → ((e ≡ none) × (f ≡ none))
            × ((total buried ≡ total q) × (total postponed ≡ total q))
            × (Ends buried.dlq (record {
              id = fresh;
              name = j.content.delivery_id;
              content = record j.content { payload = v; dlq_reason = some reason };
              delay = 0;
            }))
            × (Ends postponed.delayed (record {
              id = fresh;
              name = j.content.delivery_id;
              content = record j.content { payload = v };
              delay = delay;
            })))
        × (ok ≡ false
            → ((e ≡ some refused) × (f ≡ some infrastructure))
              × ((suc (total buried) ≡ total q) × (suc (total postponed) ≡ total q)))
  unfolding move_to_dlq move_to_delayed total Ends
  moves_lose_refused ok fresh id reason delay q j p v h c t =
      let gone = total-take_out id p q j h in
      (
        λ y.
            rw (h, dlq_found, delay_found, enqueue_delayed_job, again, c, t, y)
              (
                (refl, refl),
                (
                  omega (arith, gone, length-append (take_out id p q).dlq),
                  omega (arith, gone, length-append (take_out id p q).delayed),
                ),
                (_, refl),
                (_, refl),
              ),
        λ y.
            rw (h, dlq_found, delay_found, enqueue_delayed_job, again, c, t, y)
              ((refl, refl), (gone, gone)),
      )
