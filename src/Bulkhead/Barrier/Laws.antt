-- ===== src/Bulkhead/Barrier/Laws.antt =====
-- Several calls of `execute` at a time: what the bulkhead bounds, and what its metrics count.
use queue_forge.Bulkhead.Pool.Laws.{length-time_out, has_timer}
use queue_forge.Bulkhead.Metrics
use queue_forge.Bulkhead.Pool
use queue_forge.Bulkhead.Barrier.{
  make, give_up, awaits, expire, Started, go_on, finish, start, Bulkhead,
}
use queue_forge.Base.{
  List, Option, [], ap, arith, if◌then◌else◌, length, length-append, ltb, none, or_else, refl, some,
  suc, true, ℕ, ◌+◌, ◌<◌, ◌∷◌, ◌≡◌, ◌≤◌,
}
use queue_forge.Bulkhead.Pool.{granted, Waiting}

-- The bulkhead, with how many calls have a slot and have not gone on, how many lost their turn and
-- have not gone on, and how many operations run.
pub record World : Type 0 where
  pub bulkhead : Bulkhead
  pub resuming : ℕ
  pub expired : ℕ
  pub running : ℕ

pub started : Bulkhead × Started → World → World
started (b, awaits granted) w = record w { bulkhead = b; resuming = suc w.resuming }
started (b, _) w = record w { bulkhead = b }

pub resumed : Option ℕ → World → World
resumed none w = w
resumed (some t) w = record w { resuming = suc w.resuming }

-- The steps of the event loop, in any order that the promises allow.
pub data Step : World → World → Type 0 where
  starts :
      (w : World) (ticket : ℕ) (override : Option ℕ)
      → Step w (started (start ticket override w.bulkhead) w)
  goes_on :
      (w : World) (n : ℕ)
      → w.resuming ≡ suc n
      → Step w (record w { bulkhead = go_on w.bulkhead; resuming = n; running = suc w.running })
  times_out :
      (w : World) (t : ℕ)
      → has_timer t w.bulkhead.pool.queue ≡ true
      → Step w (record w { bulkhead = expire t w.bulkhead; expired = suc w.expired })
  gives_up :
      (w : World) (n : ℕ)
      → w.expired ≡ suc n
      → Step w (record w { bulkhead = give_up w.bulkhead; expired = n })
  finishes :
      (w : World) (n : ℕ)
      → w.running ≡ suc n
      → Step w (
          resumed
            (finish w.bulkhead).1
            (record w { bulkhead = (finish w.bulkhead).0; running = n }))

pub data Reach (w : World) : World → Type 0 where
  here : Reach w w
  next : {u v : World} → Reach w u → Step u v → Reach w v

pub record Inv (w : World) : Type 0 where
  pub slots : w.bulkhead.pool.in_use ≡ w.running + w.resuming
  pub within : w.bulkhead.pool.in_use ≤ w.bulkhead.max_concurrent
  pub size : w.bulkhead.pool.max_size ≡ w.bulkhead.max_concurrent
  pub positive : 0 < w.bulkhead.max_concurrent
  pub busy : 0 < length w.bulkhead.pool.queue → w.bulkhead.pool.in_use ≡ w.bulkhead.max_concurrent
  pub queue_bounded : length w.bulkhead.pool.queue ≤ w.bulkhead.max_queue_size
  pub active : w.bulkhead.metrics.active ≡ w.running
  pub queued : w.bulkhead.metrics.queued ≡ length w.bulkhead.pool.queue + w.resuming + w.expired
  pub balance :
      w.bulkhead.metrics.total_acquires
      ≡ w.bulkhead.metrics.total_releases + w.bulkhead.metrics.active

starts-Inv :
    (w : World) (ticket : ℕ) (override : Option ℕ)
    → Inv w
    → Inv (started (start ticket override w.bulkhead) w)
unfolding started start Pool.get_stats Pool.try_acquire Metrics.record_rejection
    Metrics.record_queued
starts-Inv w ticket override v =
    let x : Waiting = record {
      ticket = ticket;
      timer = if ltb 0 (or_else override w.bulkhead.timeout) then some ticket else none;
    } in
    ground (arith, length-append w.bulkhead.pool.queue (x ∷ []))

finishes-Inv :
    (w : World) (n : ℕ) (ws : List Waiting)
    → w.bulkhead.pool.queue ≡ ws
    → w.running ≡ suc n
    → Inv w
    → Inv
        (resumed (finish w.bulkhead).1 (record w { bulkhead = (finish w.bulkhead).0; running = n }))
unfolding resumed finish Pool.release Metrics.record_release
finishes-Inv w n [] e h v = ground arith
finishes-Inv w n (x ∷ ws) e h v = ground (arith, ap length e)

Step-Inv : {w u : World} → Step w u → Inv w → Inv u
unfolding go_on expire give_up Pool.time_out Metrics.record_acquire Metrics.record_dequeued
    Metrics.record_rejection
Step-Inv (starts w ticket override) v = starts-Inv w ticket override v
Step-Inv (goes_on w n h) v = ground arith
Step-Inv (times_out w t h) v = ground (arith, length-time_out t w.bulkhead.pool h)
Step-Inv (gives_up w n h) v = ground arith
Step-Inv (finishes w n h) v = finishes-Inv w n w.bulkhead.pool.queue refl h v

abbrev pub idle : Bulkhead → World
idle b = record { bulkhead = b; resuming = 0; expired = 0; running = 0 }

make-Inv : (concurrent queue timeout : Option ℕ) → Inv (idle (make concurrent queue timeout))
unfolding make Metrics.empty
make-Inv concurrent queue timeout = ground arith

Reach-Inv : {w u : World} → Inv w → Reach w u → Inv u
Reach-Inv v here = v
Reach-Inv v (next r s) = Step-Inv s (Reach-Inv v r)

-- In every order of starts, timers, resumptions and ends, from a new bulkhead on: no more operations
-- run than it has slots, no more calls wait than its queue allows, and its metrics count the
-- operations that run and the calls that have not gone on.
pub Reach-make-Inv :
    (concurrent queue timeout : Option ℕ) (w : World)
    → Reach (idle (make concurrent queue timeout)) w
    → (w.running ≤ w.bulkhead.max_concurrent)
      × (length w.bulkhead.pool.queue ≤ w.bulkhead.max_queue_size)
      × (w.bulkhead.metrics.active ≡ w.running)
      × (w.bulkhead.metrics.queued ≡ length w.bulkhead.pool.queue + w.resuming + w.expired)
      × (w.bulkhead.metrics.total_acquires ≡ w.bulkhead.metrics.total_releases + w.running)
Reach-make-Inv concurrent queue timeout w r =
    let v = Reach-Inv (make-Inv concurrent queue timeout) r in
    (omega arith, v.queue_bounded, v.active, v.queued, omega arith)
