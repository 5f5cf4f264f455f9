-- ===== src/Worker/Executor.antt =====
-- src/worker/delivery-executor.ts: one delivery from the worker's side, through the state machine,
-- the circuit breaker, the bulkhead, the connector, the classifier and the recorder of attempts.
-- The connector's answer is an argument, and the delivery is found. The repository carries out what
-- the state machine asks of it; whether it does so for a burial is an argument, since the program's
-- own throws there. `begin` goes up to the await of a slot, `finish` and `turn_away` go on after it.
-- Loading, payloads and logs are left out.
pub mod Moves
pub mod Branches
pub mod Final
pub mod Refused
pub mod Slot
use queue_forge.Bulkhead.Barrier.{Bulkhead}
use queue_forge.Bulkhead.Pool.{time_out, waits, granted, Acquired}
use queue_forge.Base.Maps.{put, find}
use queue_forge.Worker.Recorder.{Recorded}
use queue_forge.Base.{
  Bool, List, Option, Text, codes, false, lower, none, not, or_nonzero, some, true, ℕ, ◌++◌, ◌+◌,
}
use queue_forge.Worker.Recorder
use queue_forge.Delivery.Status.{
  get_value, failed_dlq, scheduled_retry, completed, processing, Status,
}
use queue_forge.Worker.Classifier.{classify, Fault, ErrorCategory, transient}
use queue_forge.Breaker.Registry.{Registry, update, get_breaker, is_open}
use queue_forge.Breaker.Circuit.{Breaker, record_failure, record_success}
use queue_forge.Bulkhead.Manager.{Manager, release, acquire}
use queue_forge.Worker.Machine.{
  repository_error, invalid, Methods, moved, Transition, mark_completed, mark_processing,
  move_to_dead_letter_queue, schedule_retry,
}

-- How the wait for a slot ends, where there is one: its timer runs out, or the release of another
-- call hands its slot over, which leaves the bulkheads as given.
pub data Wait : Type 0 where
  times_out : Wait
  is_granted : Manager → Wait

-- What stays the same during one call: the time, the latency that is measured, the destination, its
-- type's name, the ticket of the wait for a slot and how it ends, the methods that the repository
-- has, and the text of the error that it throws when it is asked to bury a delivery, if it does.
pub record Call : Type 0 where
  pub now : ℕ
  pub latency : ℕ
  pub destination_id : Text
  pub destination_type : Text
  pub ticket : ℕ
  pub wait : Wait
  pub methods : Methods
  pub burial : Option Text

-- What a call shares with the others, and the stored status and attempts of its delivery.
pub record World : Type 0 where
  pub registry : Registry
  pub manager : Manager
  pub status : Status
  pub attempts : List Recorded

-- The connector's answer: a success with the status it carries, a failure with a status and an
-- error, or an exception.
pub data Sent : Type 0 where
  delivered : Option ℕ → Sent
  refused : Option ℕ → Fault → Sent
  threw : Fault → Sent

pub record Result : Type 0 where
  pub success : Bool
  pub status_code : Option ℕ
  pub category : Option ErrorCategory

-- How a call ends: it returns, or an error of the state machine escapes.
pub data Ended : Type 0 where
  returns : Result → Ended
  escapes : Transition → Ended

-- The stored status after a call of the state machine.
abbrev pub stored : Status → Transition → Status → Status
stored target (moved (some q)) s = target
stored target _ s = s

abbrev throws : Transition → Bool
throws (moved q) = false
throws _ = true

-- The errors of the state machine as the classifier sees them: InvalidDeliveryStateError carries
-- the status code 400, and InternalError, into which the repositories turn what they do not know,
-- 500.
unfoldable pub fault_of : Transition → Fault
fault_of (invalid from to) = record {
  text =
      codes "Delivery in status \""
      ++ (from ++ (codes "\" cannot transition to \"" ++ (to ++ codes "\".")));
  name = some (codes "InvalidDeliveryStateError");
  code = some (codes "DELIVERY_FAILED");
  status_code = some 400;
  status = none;
  response_status = none;
}
fault_of (repository_error text) = record {
  text = text;
  name = some (codes "Error");
  code = some (codes "UNKNOWN_ERROR");
  status_code = some 500;
  status = none;
  response_status = none;
}
fault_of _ = record {
  text = codes "expect is not defined";
  name = some (codes "ReferenceError");
  code = none;
  status_code = none;
  status = none;
  response_status = none;
}

mark : Call → World → World
mark c w = record w {
  status = stored processing (mark_processing c.methods (some (get_value w.status))) w.status;
}

-- The breaker of the destination, if it is still registered.
breaker_success : Call → Option Breaker → Registry → Registry
breaker_success c none r = r
breaker_success c (some b) r = update c.destination_id (record_success c.now b) r

breaker_failure : Call → Option Breaker → Registry → Registry
breaker_failure c none r = r
breaker_failure c (some b) r = update c.destination_id (record_failure c.now b) r

pub count_success : Call → World → World
unfolding breaker_success
count_success c w = record w {
  registry = breaker_success c (find c.destination_id w.registry.breakers) w.registry;
}

pub count_failure : Call → World → World
unfolding breaker_failure
count_failure c w = record w {
  registry = breaker_failure c (find c.destination_id w.registry.breakers) w.registry;
}

unfoldable pub pool_name : Call → Text
pool_name c = lower c.destination_type

pub data Stage : Type 0 where
  aborted : Result → Stage
  admitted : Stage
  queued : Stage

abbrev pub broken : Result
broken = record { success = false; status_code = none; category = some transient }

stage_of : Acquired → Stage
stage_of granted = admitted
stage_of waits = queued

-- After the breaker was asked.
ask_slot : Call → World → Registry × Bool → World × Stage
unfolding stage_of pool_name
ask_slot c w (r, true) = (record w { registry = r }, aborted broken)
ask_slot c w (r, false) =
    let (m, a) = acquire (pool_name c) c.ticket none w.manager in
    (record w { registry = r; manager = m }, stage_of a)

pub begin : Call → World → World × Stage
unfolding mark ask_slot
begin c w =
    let w' = mark c w in
    ask_slot c w' (is_open c.now c.destination_id (get_breaker c.destination_id w'.registry).0)

-- A burial that the repository was asked for.
bury : Option Text → Transition → Transition
bury (some text) (moved (some q)) = repository_error text
bury _ t = t

-- The state machine's call for a failure that was classified: whether it may be retried decides.
plan : Call → Fault → Bool → Status → Transition
unfolding bury
plan c x true s = schedule_retry c.now 5000 x.text c.methods (some (get_value s))
plan c x false s = bury c.burial (move_to_dead_letter_queue c.methods (some (get_value s)))

target : Bool → Status
target true = scheduled_retry
target false = failed_dlq

-- A failure: breaker, classifier, recorder and state machine, in this order.
pub fail : Call → Option ℕ → Option ℕ → Fault → World → World × ErrorCategory × Transition
unfolding plan target
fail c given logged x w =
    let (category, retry) = classify x given in
    let w' = count_failure c w in
    let t = plan c x retry w'.status in
    (
      record w' {
        attempts = Recorder.record_failure c.latency logged x.text w'.attempts;
        status = stored (target retry) t w'.status;
      },
      category,
      t,
    )

-- The catch block, and what escapes from it.
end_catch : World × ErrorCategory × Transition → World × Ended
end_catch (w, category, moved q) =
    (w, returns (record { success = false; status_code = none; category = some category }))
end_catch (w, category, t) = (w, escapes t)

pub catch : Call → Fault → World → World × Ended
unfolding fail end_catch
catch c x w = end_catch (fail c none (or_nonzero x.status_code (some 500)) x w)

-- After a failure that the connector answered with.
end_refused : Call → Option ℕ → World × ErrorCategory × Transition → World × Ended
unfolding catch
end_refused c status (w, category, moved q) = (
  w,
  returns (record {
    success = false;
    status_code = or_nonzero status (some 500);
    category = some category;
  }),
)
end_refused c status (w, category, t) = catch c (fault_of t) w

-- After a success, by the state machine's answer to its completion.
end_delivered : Call → Option ℕ → Transition → World → World × Ended
unfolding catch
end_delivered c status (moved q) w = (
  record w { status = stored completed (moved q) w.status },
  returns (record { success = true; status_code = or_nonzero status (some 200); category = none }),
)
end_delivered c status t w = catch c (fault_of t) w

-- The body of the try block from the connector's answer on.
pub answer : Call → Sent → World → World × Ended
unfolding end_refused end_delivered catch
answer c (delivered status) w =
    let w' = count_success c w in
    let w'' = record w' { attempts = Recorder.record_success c.latency w'.attempts } in
    end_delivered c status (mark_completed c.now c.methods (some (get_value w.status))) w''
answer c (refused status x) w = end_refused c status (fail c status status x w)
answer c (threw x) w = catch c x w

-- The `finally` block.
pub free : Call → World → World
unfolding pool_name
free c w = record w { manager = (release (pool_name c) w.manager).0 }

-- With a slot: the connector answers, and the slot is released whatever comes of it.
pub finish : Call → Sent → World → World × Ended
unfolding answer
finish c s w = let (w', e) = answer c s w in (free c w', e)

-- Without one: the wait for a slot ended in BulkheadFullError, which carries the status code 503.
full_fault : Call → Fault
unfolding pool_name
full_fault c = record {
  text = codes "Bulkhead " ++ (pool_name c ++ codes " at capacity");
  name = some (codes "BulkheadFullError");
  code = some (codes "RATE_LIMITED");
  status_code = some 503;
  status = none;
  response_status = none;
}

pub turn_away : Call → World → World × Ended
unfolding full_fault
turn_away c w = catch c (full_fault c) w

-- The timer of the wait for a slot.
expire_in : Call → Option Bulkhead → Manager → Manager
unfolding pool_name
expire_in c none m = m
expire_in c (some b) m = record m {
  bulkheads = put (pool_name c) (record b { pool = time_out c.ticket b.pool }) m.bulkheads;
}

unfoldable pub expire : Call → World → World
unfolding expire_in
expire c w = record w { manager = expire_in c (find (pool_name c) w.manager.bulkheads) w.manager }

-- After the wait.
resume_waiting : Call → Sent → Wait → World → World × Ended
unfolding finish turn_away expire
resume_waiting c s times_out w = turn_away c (expire c w)
resume_waiting c s (is_granted m) w = finish c s (record w { manager = m })

resume : Call → Sent → World × Stage → World × Ended
unfolding finish resume_waiting
resume c s (w, aborted r) = (w, returns r)
resume c s (w, admitted) = finish c s w
resume c s (w, queued) = resume_waiting c s c.wait w

-- `execute`. During a wait that times out nothing else happens; one that ends with a slot finds the
-- bulkheads as the others leave them.
pub execute : Call → Sent → World → World × Ended
unfolding resume
execute c s w = resume c s (begin c w)
