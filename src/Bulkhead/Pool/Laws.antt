-- ===== src/Bulkhead/Pool/Laws.antt =====
-- The pool never hands out more slots than it has, keeps none free while someone waits, and serves
-- in the order of arrival.
use queue_forge.Bulkhead.Pool.{
  same_timer, timer_for, waits, time_out, Waiting, make, try_acquire, release, drop_timer, Pool,
}
use queue_forge.Base.{
  Bool, List, [], ap, arith, false, length, none, refl, some, suc, true, ℕ, ◌++◌, ◌-◌, ◌<◌, ◌||◌,
  ◌∷◌, ◌≡◌, ◌≤◌,
}

pub data Call : Type 0 where
  acquires : ℕ → ℕ → Call
  expires : ℕ → Call
  releases : Call

unfoldable pub step : Call → Pool → Pool
step (acquires ticket timeout) p = (try_acquire ticket timeout p).0
step (expires t) p = time_out t p
step releases p = (release p).0

unfoldable pub run : List Call → Pool → Pool
run [] p = p
run (c ∷ cs) p = run cs (step c p)

pub record Inv (p : Pool) : Type 0 where
  pub within : p.in_use ≤ p.max_size
  pub busy : 0 < length p.queue → p.in_use ≡ p.max_size
  pub has_slots : 0 < p.max_size

drop_timer-le : (t : ℕ) (ws : List Waiting) → length (drop_timer t ws) ≤ length ws
unfolding drop_timer
drop_timer-le t [] = omega arith
drop_timer-le t (w ∷ ws) = ground (arith, drop_timer-le t ws)

release-Inv : (p : Pool) (ws : List Waiting) → p.queue ≡ ws → Inv p → Inv (release p).0
unfolding release
release-Inv p [] e v = ground arith
release-Inv p (w ∷ ws) e v = ground (arith, ap length e)

step-Inv : (c : Call) (p : Pool) → Inv p → Inv (step c p)
unfolding step try_acquire time_out
step-Inv (acquires ticket timeout) p v = ground arith
step-Inv (expires t) p v = ground (arith, drop_timer-le t p.queue)
step-Inv releases p v = release-Inv p p.queue refl v

run-Inv : (cs : List Call) (p : Pool) → Inv p → Inv (run cs p)
unfolding run
run-Inv [] p v = v
run-Inv (c ∷ cs) p v = run-Inv cs (step c p) (step-Inv c p v)

-- After any calls on a new pool at most as many slots are in use as there are, and all of them are
-- while anyone waits; it has at least one.
pool_run-Inv : (n : ℕ) (p : Pool) (cs : List Call) → make n ≡ some p → Inv (run cs p)
unfolding make
pool_run-Inv n p cs h = run-Inv cs p (ground arith)

abbrev tickets : List Waiting → List ℕ
tickets [] = []
tickets (w ∷ ws) = w.ticket ∷ tickets ws

tickets-append : (ws vs : List Waiting) → tickets (ws ++ vs) ≡ tickets ws ++ tickets vs
tickets-append [] vs = refl
tickets-append (w ∷ ws) vs = ap (◌∷◌ w.ticket) (tickets-append ws vs)

-- In a pool that satisfies the invariant: with all slots in use an acquisition joins the end of the
-- queue; a release grants the slot to the first in the queue, if there is one, and frees one if
-- there is none.
pub fifo :
    (ticket timeout : ℕ) (p : Pool)
    → Inv p
    → (p.in_use ≡ p.max_size
        → (tickets (try_acquire ticket timeout p).0.queue ≡ tickets p.queue ++ ticket ∷ [])
          × ((try_acquire ticket timeout p).1 ≡ waits))
      × ((w : Waiting) (ws : List Waiting)
          → p.queue ≡ w ∷ ws
          → ((release p).1 ≡ some w.ticket)
            × ((release p).0.queue ≡ ws)
            × ((release p).0.in_use ≡ p.in_use))
      × (p.queue ≡ [] → ((release p).1 ≡ none) × ((release p).0.in_use ≡ p.in_use - 1))
unfolding try_acquire release
fifo ticket timeout p v = (
  λ full.
      let w : Waiting = record { ticket = ticket; timer = timer_for ticket timeout } in
      (ground (arith, tickets-append p.queue (w ∷ [])), ground arith),
  λ w ws e. (ground arith, ground arith, ground arith),
  λ e. (ground arith, ground arith),
)

-- Whether someone waits with the timer.
pub has_timer : ℕ → List Waiting → Bool
unfolding same_timer
has_timer t [] = false
has_timer t (w ∷ ws) = same_timer t w.timer || has_timer t ws

length-drop_timer :
    (t : ℕ) (ws : List Waiting) → has_timer t ws ≡ true → suc (length (drop_timer t ws)) ≡ length ws
unfolding drop_timer has_timer
length-drop_timer t [] h = cc
length-drop_timer t (w ∷ ws) h = ground (arith, length-drop_timer t ws)

-- A timer of one that waits takes one out of the queue.
pub length-time_out :
    (t : ℕ) (p : Pool)
    → has_timer t p.queue ≡ true
    → suc (length (time_out t p).queue) ≡ length p.queue
unfolding time_out
length-time_out t p h = length-drop_timer t p.queue h
