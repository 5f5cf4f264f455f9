-- ===== src/Worker/Executor/Slot.antt =====
-- The slot that a call takes and gives back.
use queue_forge.Bulkhead.Manager.{Manager}
use queue_forge.Bulkhead.Pool
use queue_forge.Bulkhead.Manager.{Manager}
use queue_forge.Bulkhead.Manager.Slot.{
  find-release, release-taken, taken, time_out-waiting, acquire-waiting, waiting, acquire-free,
}
use queue_forge.Base.Maps.{find-put, find}
use queue_forge.Breaker.Registry.{get_breaker, is_open, Registry}
use queue_forge.Worker.Classifier.{Fault, ErrorCategory}
use queue_forge.Worker.Machine.{reference_error, repository_error, Transition}
use queue_forge.Bulkhead.Barrier.{refused, Bulkhead}
use queue_forge.Worker.Executor.{
  Wait, resume_waiting, times_out, is_granted, refused, full_fault, queued, admitted, pool_name,
  expire_in, Stage, expire, free, begin, stage_of, turn_away, finish, execute, ask_slot, resume,
  mark, threw, invalid, delivered, moved, Sent, count_success, count_failure, World, Call, answer,
  catch, fail, end_catch, end_refused, end_delivered,
}
use queue_forge.Base.{
  Bool, Option, [], ap, arith, dec_lt, false, none, or_nonzero, refl, same_codes_refl, some, true,
  ℕ, ◌<◌, ◌∙◌, ◌≡◌, ◌≤◌,
}

end_delivered-manager :
    (c : Call) (status : Option ℕ) (t : Transition) (w : World)
    → ((x : Fault) (v : World) → (catch c x v).0.manager ≡ v.manager)
    → (end_delivered c status t w).0.manager ≡ w.manager
unfolding end_delivered
end_delivered-manager c status (moved q) w h = refl
end_delivered-manager c status (invalid from to) w h = h _ w
end_delivered-manager c status reference_error w h = h _ w
end_delivered-manager c status (repository_error text) w h = h _ w

end_refused-manager :
    (c : Call) (status : Option ℕ) (r : World × ErrorCategory × Transition)
    → ((x : Fault) (v : World) → (catch c x v).0.manager ≡ v.manager)
    → (end_refused c status r).0.manager ≡ r.0.manager
unfolding end_refused
end_refused-manager c status (w, category, moved q) h = refl
end_refused-manager c status (w, category, invalid from to) h = h _ w
end_refused-manager c status (w, category, reference_error) h = h _ w
end_refused-manager c status (w, category, repository_error text) h = h _ w

end_catch-manager : (r : World × ErrorCategory × Transition) → (end_catch r).0.manager ≡ r.0.manager
unfolding end_catch
end_catch-manager (w, category, moved q) = refl
end_catch-manager (w, category, invalid from to) = refl
end_catch-manager (w, category, reference_error) = refl
end_catch-manager (w, category, repository_error text) = refl

fail-manager :
    (c : Call) (given logged : Option ℕ) (x : Fault) (w : World)
    → (fail c given logged x w).0.manager ≡ w.manager
unfolding fail count_failure
fail-manager c given logged x w = refl

catch-manager : (c : Call) (x : Fault) (w : World) → (catch c x w).0.manager ≡ w.manager
unfolding catch
catch-manager c x w =
    end_catch-manager (fail c none (or_nonzero x.status_code (some 500)) x w)
    ∙ fail-manager c none (or_nonzero x.status_code (some 500)) x w

answer-manager : (c : Call) (s : Sent) (w : World) → (answer c s w).0.manager ≡ w.manager
unfolding answer count_success
answer-manager c (delivered status) w = end_delivered-manager c status _ _ (catch-manager c)
answer-manager c (refused status x) w =
    end_refused-manager c status (fail c status status x w) (catch-manager c)
    ∙ fail-manager c status status x w
answer-manager c (threw x) w = catch-manager c x w

mark-manager : (c : Call) (w : World) → (mark c w).manager ≡ w.manager
unfolding mark
mark-manager c w = refl

resume-free :
    (c : Call) (s : Sent) (p : World × Stage) (b : Bulkhead)
    → p.1 ≡ admitted
    → find (pool_name c) p.0.manager.bulkheads ≡ some (taken b)
    → b.pool.queue ≡ []
    → find (pool_name c) (resume c s p).0.manager.bulkheads ≡ some b
unfolding resume finish free
resume-free c s p b a e q =
    rw a (rw (answer-manager c s p.0) (release-taken (pool_name c) p.0.manager b e q))

resume_waiting-restores :
    (c : Call) (s : Sent) (o : Wait) (w : World) (b : Bulkhead)
    → o ≡ times_out
    → find (pool_name c) w.manager.bulkheads ≡ some (waiting c.ticket b)
    → b.pool.queue ≡ []
    → find (pool_name c) (resume_waiting c s o w).0.manager.bulkheads ≡ some b
unfolding resume_waiting turn_away expire expire_in
resume_waiting-restores c s times_out w b o e q = rw (catch-manager c (full_fault c) (expire c w)) (
    rw e (
      rw (find-put, same_codes_refl)
        (ap (λ (x : Bulkhead). some x) (time_out-waiting c.ticket b q))))
resume_waiting-restores c s (is_granted m) w b o e q = cc

resume-waiting :
    (c : Call) (s : Sent) (p : World × Stage) (b : Bulkhead)
    → p.1 ≡ queued
    → c.wait ≡ times_out
    → find (pool_name c) p.0.manager.bulkheads ≡ some (waiting c.ticket b)
    → b.pool.queue ≡ []
    → find (pool_name c) (resume c s p).0.manager.bulkheads ≡ some b
unfolding resume
resume-waiting c s p b a o e q = rw a (resume_waiting-restores c s c.wait p.0 b o e q)

ask_slot-restores :
    (c : Call) (s : Sent) (w : World) (b : Bulkhead) (p : Registry × Bool)
    → find (pool_name c) w.manager.bulkheads ≡ some b
    → b.pool.queue ≡ []
    → b.pool.in_use ≤ b.pool.max_size
    → 0 < b.timeout
    → ((ask_slot c w p).1 ≡ queued → c.wait ≡ times_out)
    → find (pool_name c) (resume c s (ask_slot c w p)).0.manager.bulkheads ≡ some b
unfolding ask_slot stage_of resume
ask_slot-restores c s w b (r, true) e q l t o = e
ask_slot-restores c s w b (r, false) e q l t o = elim (dec_lt b.pool.in_use b.pool.max_size) [
  | yes f ↦
      let (a, g) = acquire-free (pool_name c) c.ticket w.manager b e f in
      resume-free c s (ask_slot c w (r, false)) b (rw a refl) g q
  | no f ↦
      let (a, g) = acquire-waiting (pool_name c) c.ticket w.manager b e (omega arith) q t in
      let waits : (ask_slot c w (r, false)).1 ≡ queued = rw a refl in
      resume-waiting c s (ask_slot c w (r, false)) b waits (o waits) g q
]

resume_waiting-gives_back :
    (c : Call) (s : Sent) (o : Wait) (w : World) (m : Manager) (b : Bulkhead)
    → o ≡ is_granted m
    → find (pool_name c) m.bulkheads ≡ some b
    → find (pool_name c) (resume_waiting c s o w).0.manager.bulkheads
      ≡ some (record b { pool = (Pool.release b.pool).0 })
unfolding resume_waiting finish free
resume_waiting-gives_back c s times_out w m b o e = cc
resume_waiting-gives_back c s (is_granted n) w m b o e =
    let same : n ≡ m = cc in
    rw (answer-manager c s (record w { manager = n })) (find-release (pool_name c) n b (rw same e))

resume-granted :
    (c : Call) (s : Sent) (p : World × Stage) (m : Manager) (b : Bulkhead)
    → p.1 ≡ queued
    → c.wait ≡ is_granted m
    → find (pool_name c) m.bulkheads ≡ some b
    → find (pool_name c) (resume c s p).0.manager.bulkheads
      ≡ some (record b { pool = (Pool.release b.pool).0 })
unfolding resume
resume-granted c s p m b a o e = rw a (resume_waiting-gives_back c s c.wait p.0 m b o e)

-- A call gives back the slot that it takes, whatever the connector answers, and also where an error
-- escapes from it. A bulkhead with a time limit for which nobody waits is afterwards as it was, also
-- where all its slots are in use and the wait for one times out, and where the breaker is open. A
-- call that waits and gets a slot from another call's release gives one slot back to the bulkhead
-- that it finds then.
pub execute_restores_slot :
    (c : Call) (s : Sent) (w : World) (b : Bulkhead)
    → find (pool_name c) w.manager.bulkheads ≡ some b
    → b.pool.queue ≡ []
    → b.pool.in_use ≤ b.pool.max_size
    → 0 < b.timeout
    → let after = find (pool_name c) (execute c s w).0.manager.bulkheads in
      (((begin c w).1 ≡ queued → c.wait ≡ times_out) → after ≡ some b)
      × ((m : Manager) (b' : Bulkhead)
          → (begin c w).1 ≡ queued
          → c.wait ≡ is_granted m
          → find (pool_name c) m.bulkheads ≡ some b'
          → after ≡ some (record b' { pool = (Pool.release b'.pool).0 }))
unfolding execute begin
execute_restores_slot c s w b e q l t = (
  ask_slot-restores c s (mark c w) b
      (is_open c.now c.destination_id (get_breaker c.destination_id (mark c w).registry).0)
      (rw (mark-manager c w) e) q l t,
  λ m b'. resume-granted c s (begin c w) m b',
)
