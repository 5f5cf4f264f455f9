-- ===== src/Worker/Executor/Refused.antt =====
-- What a call does to deliveries that it should not send.
use queue_forge.Worker.Executor.Final.{catch-final, answer-final}
use queue_forge.Worker.Recorder.{Recorded}
use queue_forge.Delivery.Status.{processing}
use queue_forge.Worker.Executor.Moves.{mark_processing-stored, takes_up, every_method}
use queue_forge.Worker.Executor.{
  resume_waiting, Wait, times_out, is_granted, queued, full_fault, Stage, turn_away, free, admitted,
  resume, finish, expire, answer, returns, broken, Sent, aborted, mark, ask_slot, World, execute,
  begin, Call,
}
use queue_forge.Base.{
  Bool, List, ap, arith, false, if◌then◌else◌, length, refl, suc, true, ◌∙◌, ◌≡◌, ◌≤◌,
}
use queue_forge.Breaker.Registry.{Registry, get_breaker, is_open}

-- What the breaker of the destination is asked.
asked : Call → World → Registry × Bool
asked c w = is_open c.now c.destination_id (get_breaker c.destination_id w.registry).0

unfoldable pub is_open_for : Call → World → Bool
unfolding asked
is_open_for c w = (asked c w).1

begin-open :
    (c : Call) (w : World)
    → is_open_for c w ≡ true
    → begin c w ≡ (record (mark c w) { registry = (asked c w).0 }, aborted broken)
unfolding begin is_open_for asked ask_slot mark
begin-open c w h = rw (h, ask_slot) refl

-- While the breaker of its destination is open a delivery is not sent: no slot is taken, no attempt
-- is recorded, and the call returns a transient failure, whatever the connector would answer. But
-- with a repository that has every method, a delivery that was pending, processing or scheduled is
-- stored as processing then, and no retry of it is scheduled.
pub execute_open :
    (c : Call) (s : Sent) (w : World)
    → c.methods ≡ every_method
    → is_open_for c w ≡ true
    → let (w', e) = execute c s w in
      (w'.manager ≡ w.manager)
      × (w'.attempts ≡ w.attempts)
      × (e ≡ returns broken)
      × (w'.status ≡ (if takes_up w.status then processing else w.status))
unfolding execute mark
execute_open c s w m h =
    rw (begin-open c w h) (refl, refl, refl, rw m (mark_processing-stored w.status))

ask_slot-keeps :
    (c : Call) (w : World) (p : Registry × Bool)
    → ((ask_slot c w p).0.status ≡ w.status) × ((ask_slot c w p).0.attempts ≡ w.attempts)
unfolding ask_slot
ask_slot-keeps c w (r, true) = (refl, refl)
ask_slot-keeps c w (r, false) = (refl, refl)

mark-final :
    (c : Call) (w : World)
    → c.methods ≡ every_method
    → takes_up w.status ≡ false
    → (mark c w).status ≡ w.status
unfolding mark
mark-final c w m h = rw (m, mark_processing-stored w.status, h) refl

expire-keeps :
    (c : Call) (w : World) → ((expire c w).status ≡ w.status) × ((expire c w).attempts ≡ w.attempts)
unfolding expire
expire-keeps c w = (refl, refl)

finish-keeps :
    (c : Call) (s : Sent) (w : World)
    → ((finish c s w).0.status ≡ (answer c s w).0.status)
      × ((finish c s w).0.attempts ≡ (answer c s w).0.attempts)
unfolding finish free
finish-keeps c s w = (refl, refl)

resume_waiting-final :
    (c : Call) (s : Sent) (o : Wait) (w : World)
    → c.methods ≡ every_method
    → takes_up w.status ≡ false
    → let w' = (resume_waiting c s o w).0 in
      (w'.status ≡ w.status) × (suc (length w.attempts) ≤ length w'.attempts)
unfolding resume_waiting turn_away
resume_waiting-final c s times_out w m h =
    let (k, l) = expire-keeps c w in
    let (k', l') = catch-final c (full_fault c) (expire c w) m (ap takes_up k ∙ h) in
    (k' ∙ k, omega (arith, l', ap (λ (t : List Recorded). length t) l))
resume_waiting-final c s (is_granted p) w m h =
    let (k, l) = answer-final c s (record w { manager = p }) m h in
    let (k', l') = finish-keeps c s (record w { manager = p }) in (k' ∙ k, rw l' l)

resume-final :
    (c : Call) (s : Sent) (p : World × Stage)
    → c.methods ≡ every_method
    → takes_up p.0.status ≡ false
    → ((resume c s p).0.status ≡ p.0.status)
      × (p.1 ≡ admitted → suc (length p.0.attempts) ≤ length (resume c s p).0.attempts)
unfolding resume
resume-final c s (w, aborted r) m h = (refl, λ e. ground arith)
resume-final c s (w, admitted) m h =
    let (k, l) = answer-final c s w m h in
    let (k', l') = finish-keeps c s w in (k' ∙ k, λ e. rw l' l)
resume-final c s (w, queued) m h = let (k, l) = resume_waiting-final c s c.wait w m h in (k, λ e. l)

-- After the breaker was asked and the slot, if one is needed.
begin-keeps :
    (c : Call) (w : World)
    → ((begin c w).0.status ≡ (mark c w).status) × ((begin c w).0.attempts ≡ w.attempts)
unfolding begin mark
begin-keeps c w =
    ask_slot-keeps c (mark c w)
      (is_open c.now c.destination_id (get_breaker c.destination_id w.registry).0)

-- A completed or buried delivery stays what it is, in a repository that has every method, whatever
-- the connector answers. But the state machine's refusal to take it up stops nothing: with a slot
-- and its breaker not open it is sent again, and at least one more attempt is recorded.
pub execute_final :
    (c : Call) (s : Sent) (w : World)
    → c.methods ≡ every_method
    → takes_up w.status ≡ false
    → let w' = (execute c s w).0 in
      (w'.status ≡ w.status)
      × ((begin c w).1 ≡ admitted → suc (length w.attempts) ≤ length w'.attempts)
unfolding execute
execute_final c s w m h =
    let (e, l) = begin-keeps c w in
    let same : (begin c w).0.status ≡ w.status = e ∙ mark-final c w m h in
    let (k, g) = resume-final c s (begin c w) m (ap takes_up same ∙ h) in
    (k ∙ same, λ a. omega (arith, g a, ap (λ (t : List Recorded). length t) l))
