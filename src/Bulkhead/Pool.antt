-- ===== src/Bulkhead/Pool.antt =====
-- src/resilience/bulkhead/resource-pool.ts: slots with a queue of those who wait. An acquisition
-- has a ticket, which stands for its promise and for its timer; that a promise is resolved is part
-- of a step's result.
pub mod Laws
use queue_forge.Base.{
  Bool, List, Option, [], false, if◌then◌else◌, leb, length, ltb, none, some, suc, ℕ, ◌++◌, ◌+◌,
  ◌-◌, ◌==◌, ◌∷◌,
}

-- One that waits, with its timer, if it has one.
pub record Waiting : Type 0 where
  pub ticket : ℕ
  pub timer : Option ℕ

pub record Pool : Type 0 where
  pub max_size : ℕ
  pub in_use : ℕ
  pub queue : List Waiting

-- The constructor; `none` is its error.
unfoldable pub make : ℕ → Option Pool
make max_size =
    if leb max_size 0 then none else some (record { max_size = max_size; in_use = 0; queue = [] })

unfoldable pub is_full : Pool → Bool
is_full p = leb p.max_size p.in_use

pub record Stats : Type 0 where
  pub available : ℕ
  pub in_use : ℕ
  pub total : ℕ
  pub queued : ℕ

unfoldable pub get_stats : Pool → Stats
get_stats p = record {
  available = p.max_size - p.in_use;
  in_use = p.in_use;
  total = p.max_size;
  queued = length p.queue;
}

-- Whether the promise of a `tryAcquire` is resolved at once.
pub data Acquired : Type 0 where
  granted waits : Acquired

unfoldable pub timer_for : ℕ → ℕ → Option ℕ
timer_for ticket timeout = if ltb 0 timeout then some ticket else none

unfoldable pub try_acquire : ℕ → ℕ → Pool → Pool × Acquired
unfolding timer_for
try_acquire ticket timeout p =
    if ltb p.in_use p.max_size then (record p { in_use = suc p.in_use }, granted) else (
      record p {
        queue = p.queue ++ record { ticket = ticket; timer = timer_for ticket timeout } ∷ [];
      },
      waits,
    )

same_timer : ℕ → Option ℕ → Bool
same_timer t none = false
same_timer t (some u) = t == u

-- `splice` at the first entry with the timer.
drop_timer : ℕ → List Waiting → List Waiting
unfolding same_timer
drop_timer t [] = []
drop_timer t (w ∷ ws) = if same_timer t w.timer then ws else w ∷ drop_timer t ws

-- The callback of a timer, whose promise is resolved with `false`.
unfoldable pub time_out : ℕ → Pool → Pool
unfolding drop_timer
time_out t p = record p { queue = drop_timer t p.queue }

-- The first who waits is granted the slot; the answer is its ticket.
grant_next : List Waiting → Pool → Pool × Option ℕ
grant_next [] p = (p, none)
grant_next (w ∷ ws) p = (record p { queue = ws; in_use = suc p.in_use }, some w.ticket)

unfoldable pub release : Pool → Pool × Option ℕ
unfolding grant_next
release p =
    if leb p.in_use 0 then (p, none) else grant_next p.queue (record p { in_use = p.in_use - 1 })
