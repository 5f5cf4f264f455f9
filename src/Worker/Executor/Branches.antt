-- ===== src/Worker/Executor/Branches.antt =====
-- What one call of the executor comes to.
use queue_forge.Breaker.Registry.{Registry}
use queue_forge.Worker.Machine.{repository_error, moved, Request}
use queue_forge.Worker.Executor.Moves.{
  mark_completed-Moves, move_to_dead_letter_queue-Moves, schedule_retry-Moves, Moves, every_method,
}
use queue_forge.Worker.Classifier.{ErrorCategory, classify, Fault, transient}
use queue_forge.Delivery.Status.{completed, processing, failed_dlq, scheduled_retry, Status}
use queue_forge.Base.{
  ◌+◌, Bool, Option, Text, arith, false, if◌then◌else◌, length, length-append, none, or_nonzero,
  refl, some, suc, true, ℕ, ◌≡◌,
}
use queue_forge.Worker.Recorder.{record_success, record_failure}
use queue_forge.Worker.Executor.{
  fault_of, escapes, bury, end_delivered, Result, end_refused, Ended, threw, refused, count_success,
  delivered, returns, Sent, end_catch, answer, catch, count_failure, target, plan, World, Call,
  fail,
}

-- Where the failure leads to, by whether it may be retried.
abbrev pub next : Bool → Status
next retry = if retry then scheduled_retry else failed_dlq

plan-Moves :
    (c : Call) (x : Fault) (retry : Bool) (s : Status)
    → c.methods ≡ every_method
    → (next retry ≡ failed_dlq → c.burial ≡ none)
    → s ≡ processing
    → Moves (plan c x retry s)
unfolding plan bury
plan-Moves c x true s m b e = rw (m, e) (schedule_retry-Moves c.now 5000 x.text)
plan-Moves c x false s m b e = rw (m, e, b refl) move_to_dead_letter_queue-Moves

target-next : (retry : Bool) → target retry ≡ next retry
unfolding target
target-next true = refl
target-next false = refl

-- The world after a failure of a processing delivery.
failed : Call → Option ℕ → Option ℕ → Fault → World → World
unfolding count_failure
failed c given logged x w = record (count_failure c w) {
  attempts = record_failure c.latency logged x.text w.attempts;
  status = next (classify x given).1;
}

fail-failed :
    (c : Call) (given logged : Option ℕ) (x : Fault) (w : World)
    → c.methods ≡ every_method
    → (next (classify x given).1 ≡ failed_dlq → c.burial ≡ none)
    → w.status ≡ processing
    → (q : Request) × (fail c given logged x w
        ≡ (failed c given logged x w, (classify x given).0, moved (some q)))
unfolding fail count_failure failed
fail-failed c given logged x w m b s =
    let (q, e) = plan-Moves c x (classify x given).1 w.status m b s in (q, rw (e, target-next) refl)

returned : ErrorCategory → Option ℕ → Ended
returned category status =
    returns (record { success = false; status_code = status; category = some category })

catch-failed :
    (c : Call) (x : Fault) (w : World)
    → c.methods ≡ every_method
    → (next (classify x none).1 ≡ failed_dlq → c.burial ≡ none)
    → w.status ≡ processing
    → catch c x w
      ≡ (failed c none (or_nonzero x.status_code (some 500)) x w, returned (classify x none).0 none)
unfolding catch end_catch returned
catch-failed c x w m b s =
    rw ((fail-failed c none (or_nonzero x.status_code (some 500)) x w m b s).1) refl

refused-failed :
    (c : Call) (status : Option ℕ) (x : Fault) (w : World)
    → c.methods ≡ every_method
    → (next (classify x status).1 ≡ failed_dlq → c.burial ≡ none)
    → w.status ≡ processing
    → answer c (refused status x) w
      ≡ (failed c status status x w, returned (classify x status).0 (or_nonzero status (some 500)))
unfolding answer end_refused returned
refused-failed c status x w m b s = rw ((fail-failed c status status x w m b s).1) refl

length-failed :
    (c : Call) (given logged : Option ℕ) (x : Fault) (w : World)
    → length (failed c given logged x w).attempts ≡ suc (length w.attempts)
unfolding failed record_failure
length-failed c given logged x w = omega (arith, length-append {0} w.attempts)

-- What a call promises for each of the connector's answers: the status that is stored, and what is
-- returned.
abbrev pub outcome : Sent → Status × Result
outcome (delivered status) = (
  completed,
  record { success = true; status_code = or_nonzero status (some 200); category = none },
)
outcome (refused status x) = (
  next (classify x status).1,
  record {
    success = false;
    status_code = or_nonzero status (some 500);
    category = some (classify x status).0;
  },
)
outcome (threw x) = (
  next (classify x none).1,
  record { success = false; status_code = none; category = some (classify x none).0 },
)

-- One success or one failure of the destination's breaker.
abbrev pub counted : Call → Sent → World → Registry
counted c (delivered status) w = (count_success c w).registry
counted c _ w = (count_failure c w).registry

-- A processing delivery that the connector answers for, in a repository that has every method, and
-- carries out the burial if there is to be one: a success completes it, and a failure, by an answer
-- or by an exception, schedules its retry or buries it, as the classifier says. The call returns with
-- that outcome and the classifier's category of a failure; one attempt is recorded, the destination's
-- breaker counts one success or one failure, and no slot is taken or released.
pub answer_outcome :
    (c : Call) (s : Sent) (w : World)
    → c.methods ≡ every_method
    → ((outcome s).0 ≡ failed_dlq → c.burial ≡ none)
    → w.status ≡ processing
    → let (w', e) = answer c s w in
      (w'.status ≡ (outcome s).0)
      × (e ≡ returns (outcome s).1)
      × (length w'.attempts ≡ suc (length w.attempts))
      × (w'.registry ≡ counted c s w)
      × (w'.manager ≡ w.manager)
unfolding answer end_delivered record_success count_success failed returned count_failure
answer_outcome c (delivered status) w m b e =
    let (q, h) = mark_completed-Moves c.now in
    rw (m, e, h) (refl, refl, omega (arith, length-append {0} w.attempts), refl, refl)
answer_outcome c (refused status x) w m b e =
    rw (refused-failed c status x w m b e)
      (refl, refl, length-failed c status status x w, refl, refl)
answer_outcome c (threw x) w m b e =
    rw (catch-failed c x w m b e)
      (refl, refl, length-failed c none (or_nonzero x.status_code (some 500)) x w, refl, refl)

buried_false : (retry : Bool) → next retry ≡ failed_dlq → retry ≡ false
buried_false false h = refl
buried_false true h = ground arith

-- The world after a failure that is not stored.
unstored : Call → Option ℕ → Fault → World → World
unfolding count_failure
unstored c logged x w = record (count_failure c w) {
  attempts = record_failure c.latency logged x.text w.attempts;
}

fail-unstored :
    (c : Call) (given logged : Option ℕ) (x : Fault) (text : Text) (w : World)
    → c.methods ≡ every_method
    → c.burial ≡ some text
    → next (classify x given).1 ≡ failed_dlq
    → w.status ≡ processing
    → fail c given logged x w ≡ (unstored c logged x w, (classify x given).0, repository_error text)
unfolding fail count_failure unstored plan bury
fail-unstored c given logged x text w m b h s =
    let (q, e) = move_to_dead_letter_queue-Moves in
    rw (buried_false (classify x given).1 h, m, b, s, e) refl

-- The repository's error is retried.
fault_of-retried :
    (text : Text) → classify (fault_of (repository_error text)) none ≡ (transient, true)
unfolding classify fault_of
fault_of-retried text = refl

not_buried :
    (text : Text) (o : Option Text)
    → next (classify (fault_of (repository_error text)) none).1 ≡ failed_dlq
    → o ≡ none
not_buried text o h = absurd (ground (arith, rw (fault_of-retried text) at h))

-- What comes of a failure that the repository does not bury: the status, the end, how many attempts
-- are recorded, and the breakers.
abbrev pub unburied : Call → Text → Sent → World → Status × Ended × ℕ × Registry
unburied c text (threw x) w =
    (processing, escapes (repository_error text), 1, (count_failure c w).registry)
unburied c text _ w = (
  scheduled_retry,
  returns (record { success = false; status_code = none; category = some transient }),
  2,
  (count_failure c (count_failure c w)).registry,
)

-- In a repository that has every method and throws when it is asked to bury a delivery, as the
-- program's own does, a failure of a processing delivery that is not to be retried is not buried.
-- Where the connector answered with it, the catch block takes the repository's error for a second
-- failure: two attempts are recorded, the breaker counts twice, and a retry is scheduled. Where it
-- was an exception, one attempt is recorded and the breaker counts once, the repository's error
-- escapes from the call and the delivery stays processing. No slot is taken or released.
pub answer-unburied :
    (c : Call) (s : Sent) (text : Text) (w : World)
    → c.methods ≡ every_method
    → c.burial ≡ some text
    → (outcome s).0 ≡ failed_dlq
    → w.status ≡ processing
    → let (w', e) = answer c s w in
      let (status, end, n, registry) = unburied c text s w in
      (w'.status ≡ status)
      × (e ≡ end)
      × (length w'.attempts ≡ n + length w.attempts)
      × (w'.registry ≡ registry)
      × (w'.manager ≡ w.manager)
unfolding answer end_refused catch end_catch record_failure count_failure failed returned unstored
answer-unburied c (delivered status) text w m b h e = cc
answer-unburied c (refused status x) text w m b h e =
    let v = unstored c status x w in
    let again =
      catch-failed c (fault_of (repository_error text)) v m (not_buried text c.burial) e in
    rw (fail-unstored c status status x text w m b h e, again, fault_of-retried text)
      (
        refl,
        refl,
        omega (arith, length-append {0} w.attempts, length-append {0} v.attempts),
        refl,
        refl,
      )
answer-unburied c (threw x) text w m b h e =
    rw (fail-unstored c none (or_nonzero x.status_code (some 500)) x text w m b h e)
      (e, refl, omega (arith, length-append {0} w.attempts), refl, refl)
