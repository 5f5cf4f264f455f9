-- ===== src/Bulkhead/Manager/Slot.antt =====
-- One slot of a bulkhead, taken and released through the manager.
use queue_forge.Base.Maps.{find-put, find}
use queue_forge.Bulkhead.Manager.{Manager, or_create, get_bulkhead, release, acquire}
use queue_forge.Bulkhead.Pool.{waits, Acquired, granted, Pool}
use queue_forge.Bulkhead.Barrier.{or_number, Bulkhead}
use queue_forge.Base.{Text, [], ap, arith, none, refl, same_codes_refl, some, suc, ℕ, ◌<◌, ◌∷◌, ◌≡◌}
use queue_forge.Bulkhead.Pool

-- The bulkhead with one more slot in use.
pub taken : Bulkhead → Bulkhead
taken b = record b { pool = record b.pool { in_use = suc b.pool.in_use } }

try_acquire-free :
    (ticket timeout : ℕ) (p : Pool)
    → p.in_use < p.max_size
    → Pool.try_acquire ticket timeout p ≡ (record p { in_use = suc p.in_use }, granted)
unfolding Pool.try_acquire
try_acquire-free ticket timeout p l = ground arith

pub acquire-free :
    (id : Text) (ticket : ℕ) (m : Manager) (b : Bulkhead)
    → find id m.bulkheads ≡ some b
    → b.pool.in_use < b.pool.max_size
    → ((acquire id ticket none m).1 ≡ granted)
      × (find id (acquire id ticket none m).0.bulkheads ≡ some (taken b))
unfolding acquire get_bulkhead taken or_create
acquire-free id ticket m b e l = rw e (
  ap (λ (r : Pool × Acquired). r.1) (try_acquire-free ticket (or_number none b.timeout) b.pool l),
  rw (find-put, same_codes_refl, try_acquire-free ticket (or_number none b.timeout) b.pool l) refl,
)

pub release-taken :
    (id : Text) (m : Manager) (b : Bulkhead)
    → find id m.bulkheads ≡ some (taken b)
    → b.pool.queue ≡ []
    → find id (release id m).0.bulkheads ≡ some b
unfolding release get_bulkhead Pool.release taken or_create
release-taken id m b e q = rw e (rw (find-put, same_codes_refl) (ground (arith, q)))

-- The bulkhead with the first to wait, whose wait has a timer.
pub waiting : ℕ → Bulkhead → Bulkhead
waiting ticket b = record b {
  pool = record b.pool { queue = record { ticket = ticket; timer = some ticket } ∷ [] };
}

try_acquire-waiting :
    (ticket timeout : ℕ) (b : Bulkhead)
    → b.pool.in_use ≡ b.pool.max_size
    → b.pool.queue ≡ []
    → 0 < timeout
    → Pool.try_acquire ticket timeout b.pool ≡ ((waiting ticket b).pool, waits)
unfolding Pool.try_acquire Pool.timer_for waiting
try_acquire-waiting ticket timeout b f q l = ground arith

pub acquire-waiting :
    (id : Text) (ticket : ℕ) (m : Manager) (b : Bulkhead)
    → find id m.bulkheads ≡ some b
    → b.pool.in_use ≡ b.pool.max_size
    → b.pool.queue ≡ []
    → 0 < b.timeout
    → ((acquire id ticket none m).1 ≡ waits)
      × (find id (acquire id ticket none m).0.bulkheads ≡ some (waiting ticket b))
unfolding acquire get_bulkhead waiting or_create
acquire-waiting id ticket m b e f q l = rw e (
  ap (λ (r : Pool × Acquired). r.1) (try_acquire-waiting ticket b.timeout b f q l),
  rw (find-put, same_codes_refl, try_acquire-waiting ticket b.timeout b f q l) refl,
)

pub time_out-waiting :
    (ticket : ℕ) (b : Bulkhead)
    → b.pool.queue ≡ []
    → record (waiting ticket b) { pool = Pool.time_out ticket (waiting ticket b).pool } ≡ b
unfolding Pool.time_out waiting
time_out-waiting ticket b q = ground arith

-- One slot given back through the manager.
pub find-release :
    (name : Text) (m : Manager) (b : Bulkhead)
    → find name m.bulkheads ≡ some b
    → find name (release name m).0.bulkheads ≡ some (record b { pool = (Pool.release b.pool).0 })
unfolding release get_bulkhead
find-release name m b e = rw (e, or_create) (rw (find-put, same_codes_refl) refl)
