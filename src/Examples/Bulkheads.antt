-- ===== src/Examples/Bulkheads.antt =====
-- Bulkheads.
use queue_forge.Bulkhead.Barrier.{Bulkhead}
use queue_forge.Bulkhead.Barrier.Laws.{starts, here, next, Reach-make-Inv, idle, started, World}
use queue_forge.Base.{length, none, some, ◌+◌, ◌≡◌, ◌≤◌}
use queue_forge.Bulkhead.Barrier

abbrev world : World
world = idle (Barrier.make (some 1) (some 5) none)

Reach-make-Inv_example :
    let w = started (Barrier.start 1 none world.bulkhead) world in
    (w.running ≤ w.bulkhead.max_concurrent)
    × (length w.bulkhead.pool.queue ≤ w.bulkhead.max_queue_size)
    × (w.bulkhead.metrics.active ≡ w.running)
    × (w.bulkhead.metrics.queued ≡ length w.bulkhead.pool.queue + w.resuming + w.expired)
    × (w.bulkhead.metrics.total_acquires ≡ w.bulkhead.metrics.total_releases + w.running)
Reach-make-Inv_example =
    Reach-make-Inv (some 1) (some 5) none (started (Barrier.start 1 none world.bulkhead) world)
      (next here (starts world 1 none))
