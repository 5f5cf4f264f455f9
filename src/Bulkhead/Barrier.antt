-- ===== src/Bulkhead/Barrier.antt =====
-- src/resilience/bulkhead/bulkhead.ts: a bounded number of operations at a time, and a bounded
-- queue. `execute` is cut at its awaits: it starts, goes on once its promise is resolved with a
-- slot or without one, and ends when its operation has ended.
pub mod Laws
use queue_forge.Bulkhead.Metrics.{Metrics}
use queue_forge.Bulkhead.Pool.{Acquired, Pool}
use queue_forge.Base.{Bool, Option, [], if◌then◌else◌, leb, none, or_else, some, suc, zero, ℕ, ◌&&◌}
use queue_forge.Bulkhead.Metrics
use queue_forge.Bulkhead.Pool

pub record Bulkhead : Type 0 where
  pub max_concurrent : ℕ
  pub max_queue_size : ℕ
  pub timeout : ℕ
  pub pool : Pool
  pub metrics : Metrics

-- `a || b` on numbers, where 0 counts as nothing.
abbrev pub or_number : Option ℕ → ℕ → ℕ
or_number none d = d
or_number (some zero) d = d
or_number (some (suc n)) d = suc n

-- The constructor, with `Partial<BulkheadConfig>`: the number of slots is never 0.
unfoldable pub make : Option ℕ → Option ℕ → Option ℕ → Bulkhead
make concurrent queue timeout = record {
  max_concurrent = or_number concurrent 10;
  max_queue_size = or_number queue 50;
  timeout = or_number timeout 30000;
  pool = record { max_size = or_number concurrent 10; in_use = 0; queue = [] };
  metrics = Metrics.empty;
}

pub is_full : Bulkhead → Bool
is_full b =
    leb b.max_concurrent (Pool.get_stats b.pool).in_use
    && leb b.max_queue_size (Pool.get_stats b.pool).queued

pub data Started : Type 0 where
  refused : Started
  awaits : Acquired → Started

-- The start of `execute`, with the number of its promise.
unfoldable pub start : ℕ → Option ℕ → Bulkhead → Bulkhead × Started
unfolding is_full
start ticket override b =
    if is_full b
    then (record b { metrics = Metrics.record_rejection b.metrics }, refused)
    else (let (p, acquired) = Pool.try_acquire ticket (or_else override b.timeout) b.pool in
        (record b { pool = p; metrics = Metrics.record_queued b.metrics }, awaits acquired))

-- It goes on with a slot, and calls the operation.
pub go_on : Bulkhead → Bulkhead
go_on b = record b { metrics = Metrics.record_acquire (Metrics.record_dequeued b.metrics) }

-- It goes on without a slot, and throws BulkheadFullError.
pub give_up : Bulkhead → Bulkhead
give_up b = record b { metrics = Metrics.record_rejection (Metrics.record_dequeued b.metrics) }

-- Its operation has returned or thrown; the answer is the ticket that gets the slot.
pub finish : Bulkhead → Bulkhead × Option ℕ
finish b =
    let (p, next) = Pool.release b.pool in
    (record b { pool = p; metrics = Metrics.record_release b.metrics }, next)

-- The metrics alone are reset, whatever runs and waits.
reset : Bulkhead → Bulkhead
reset b = record b { metrics = Metrics.reset b.metrics }

-- A timer of the pool.
pub expire : ℕ → Bulkhead → Bulkhead
expire t b = record b { pool = Pool.time_out t b.pool }
