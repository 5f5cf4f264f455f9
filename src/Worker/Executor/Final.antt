-- ===== src/Worker/Executor/Final.antt =====
-- What the connector's answer does to a completed or buried delivery.
use queue_forge.Worker.Machine.{
  mark_completed, reference_error, repository_error, Transition, Request,
}
use queue_forge.Worker.Recorder
use queue_forge.Worker.Classifier.{classify, Fault, ErrorCategory}
use queue_forge.Delivery.Status.{
  get_value, scheduled_retry, failed_dlq, completed, pending, Status, processing,
}
use queue_forge.Worker.Executor.Moves.{
  mark_completed-buried, mark_completed-again, move_to_dead_letter_queue-buried,
  schedule_retry-buried, move_to_dead_letter_queue-completed, schedule_retry-completed, takes_up,
  every_method,
}
use queue_forge.Worker.Executor.{
  bury, threw, refused, end_delivered, delivered, count_success, answer, fault_of, invalid, stored,
  moved, count_failure, target, end_refused, catch, end_catch, fail, plan, Sent, World, Call,
}
use queue_forge.Base.{
  Bool, Option, Text, ap, arith, codes, false, inl, inr, length, length-append, none, or_nonzero,
  refl, some, suc, true, ℕ, ◌∙◌, ◌≡◌, ◌≤◌, ◌⊎◌,
}

bury-refused : (o : Option Text) (from to : Text) → bury o (invalid from to) ≡ invalid from to
unfolding bury
bury-refused none from to = refl
bury-refused (some text) from to = refl

-- A burial leaves a buried delivery buried, also where the repository throws.
bury-buried :
    (o : Option Text) (q : Request)
    → stored failed_dlq (bury o (moved (some q))) failed_dlq ≡ failed_dlq
unfolding bury
bury-buried none q = refl
bury-buried (some text) q = refl

plan-final :
    (c : Call) (x : Fault) (retry : Bool) (s : Status)
    → c.methods ≡ every_method
    → takes_up s ≡ false
    → stored (target retry) (plan c x retry s) s ≡ s
unfolding plan target
plan-final c x true completed m h = rw (m, schedule_retry-completed c.now 5000 x.text) refl
plan-final c x false completed m h =
    rw (m, move_to_dead_letter_queue-completed, bury-refused c.burial) refl
plan-final c x true failed_dlq m h = rw (m, schedule_retry-buried c.now 5000 x.text) refl
plan-final c x false failed_dlq m h =
    let (q, e) = move_to_dead_letter_queue-buried in rw (m, e) (bury-buried c.burial q)
plan-final c x retry pending m h = cc
plan-final c x retry processing m h = cc
plan-final c x retry scheduled_retry m h = cc

fail-final :
    (c : Call) (given logged : Option ℕ) (x : Fault) (w : World)
    → c.methods ≡ every_method
    → takes_up w.status ≡ false
    → let w' = (fail c given logged x w).0 in
      (w'.status ≡ w.status) × (length w'.attempts ≡ suc (length w.attempts))
unfolding fail count_failure Recorder.record_failure
fail-final c given logged x w m h =
    (plan-final c x (classify x given).1 w.status m h, omega (arith, length-append {0} w.attempts))

-- Whatever the state machine answers in the catch block, the world is the one after the failure.
end_catch-world : (r : World × ErrorCategory × Transition) → (end_catch r).0 ≡ r.0
unfolding end_catch
end_catch-world (w, category, moved q) = refl
end_catch-world (w, category, invalid from to) = refl
end_catch-world (w, category, reference_error) = refl
end_catch-world (w, category, repository_error text) = refl

pub catch-final :
    (c : Call) (x : Fault) (w : World)
    → c.methods ≡ every_method
    → takes_up w.status ≡ false
    → let w' = (catch c x w).0 in
      (w'.status ≡ w.status) × (length w'.attempts ≡ suc (length w.attempts))
unfolding catch
catch-final c x w m h =
    rw (end_catch-world (fail c none (or_nonzero x.status_code (some 500)) x w))
      (fail-final c none (or_nonzero x.status_code (some 500)) x w m h)

-- A step of the call keeps the status and adds attempts.
abbrev Keeps : World → World → Type 0
Keeps w w' = (w'.status ≡ w.status) × (suc (length w.attempts) ≤ length w'.attempts)

refused-final :
    (c : Call) (status : Option ℕ) (w : World) (r : World × ErrorCategory × Transition)
    → c.methods ≡ every_method
    → takes_up w.status ≡ false
    → r.0.status ≡ w.status
    → length r.0.attempts ≡ suc (length w.attempts)
    → Keeps w (end_refused c status r).0
unfolding end_refused
refused-final c status w (w', category, moved q) m h s l = (s, omega (arith, l))
refused-final c status w (w', category, invalid from to) m h s l =
    let (s', l') = catch-final c (fault_of (invalid from to)) w' m (ap takes_up s ∙ h) in
    (s' ∙ s, omega (arith, l, l'))
refused-final c status w (w', category, reference_error) m h s l =
    let (s', l') = catch-final c (fault_of reference_error) w' m (ap takes_up s ∙ h) in
    (s' ∙ s, omega (arith, l, l'))
refused-final c status w (w', category, repository_error text) m h s l =
    let (s', l') = catch-final c (fault_of (repository_error text)) w' m (ap takes_up s ∙ h) in
    (s' ∙ s, omega (arith, l, l'))

delivered-completed :
    (c : Call) (status : Option ℕ) (w : World)
    → c.methods ≡ every_method
    → w.status ≡ completed
    → Keeps w (answer c (delivered status) w).0
unfolding answer end_delivered Recorder.record_success count_success
delivered-completed c status w m s =
    let (q, e) = mark_completed-again c.now in
    rw (m, s, e) (refl, omega (arith, length-append {0} w.attempts))

keeps-count_success : (c : Call) (w : World) → (count_success c w).status ≡ w.status
unfolding count_success
keeps-count_success c w = refl

grows-record_success :
    (c : Call) (w : World)
    → length (Recorder.record_success c.latency (count_success c w).attempts)
      ≡ suc (length w.attempts)
unfolding Recorder.record_success count_success
grows-record_success c w = omega (arith, length-append {0} w.attempts)

final-cases : (s : Status) → takes_up s ≡ false → (s ≡ completed) ⊎ (s ≡ failed_dlq)
final-cases completed h = inl refl
final-cases failed_dlq h = inr refl
final-cases pending h = cc
final-cases processing h = cc
final-cases scheduled_retry h = cc

delivered-buried :
    (c : Call) (status : Option ℕ) (w : World)
    → c.methods ≡ every_method
    → w.status ≡ failed_dlq
    → Keeps w (answer c (delivered status) w).0
unfolding answer end_delivered count_success
delivered-buried c status w m s =
    let w' : World = record (count_success c w) {
      attempts = Recorder.record_success c.latency (count_success c w).attempts;
    } in
    let same : w'.status ≡ failed_dlq = keeps-count_success c w ∙ s in
    let (s', l) =
      catch-final c (fault_of (invalid (codes "FAILED_DLQ") (codes "COMPLETED"))) w' m
        (rw same refl) in
    let e : mark_completed c.now c.methods (some (get_value w.status))
        ≡ invalid (codes "FAILED_DLQ") (codes "COMPLETED") =
      rw (m, s) (mark_completed-buried c.now) in
    rw e (s', omega (arith, l, grows-record_success c w))

pub answer-final :
    (c : Call) (s : Sent) (w : World)
    → c.methods ≡ every_method
    → takes_up w.status ≡ false
    → Keeps w (answer c s w).0
unfolding answer
answer-final c (delivered status) w m h = elim (final-cases w.status h) [
  | inl e ↦ delivered-completed c status w m e
  | inr e ↦ delivered-buried c status w m e
]
answer-final c (refused status x) w m h =
    let (s, l) = fail-final c status status x w m h in
    refused-final c status w (fail c status status x w) m h s l
answer-final c (threw x) w m h = let (s, l) = catch-final c x w m h in (s, omega (arith, l))
