-- ===== src/Worker/Heartbeat.antt =====
-- src/worker/recovery/heartbeat.ts: a worker's sign of life in Redis. Redis is an interface whose
-- calls succeed; a worker has a client of its own, the wrapper of
-- src/infrastructure/redis/redis-operations.ts, for whose `set` the word EX is no time to live, or
-- none. The list of all workers and logs are left out.
pub mod Expiry
use queue_forge.Redis.{Redis}
use queue_forge.Base.{
  Bool, Option, Text, codes, false, if◌then◌else◌, is_prefix, is_some, max, none, show_number, some,
  suc, true, zero, ℕ, ◌*◌, ◌++◌, ◌+◌, ◌-◌, ◌/◌,
}

pub data Client : Type 0 where
  direct wrapped absent : Client

-- The arguments of the constructor that are read: the first two, the seconds of the fourth where
-- the first is a text, and the time.
pub data Argument : Type 0 where
  name : Text → Argument
  client : Client → Argument
  nothing : Argument

pub record Heartbeat : Type 0 where
  pub worker_id : Text
  pub client : Client
  pub ttl_seconds : ℕ
  pub running : Bool

client_of : Argument → Client
client_of (client c) = c
client_of _ = absent

id_or : Text → Argument → Text
id_or d (name s) = s
id_or d _ = d

-- `|| 30`.
seconds_or_default : Option ℕ → ℕ
seconds_or_default none = 30
seconds_or_default (some zero) = 30
seconds_or_default (some (suc n)) = suc n

unfoldable pub construct : ℕ → Argument → Argument → Option ℕ → Heartbeat
unfolding client_of id_or seconds_or_default
construct now (name s) b ttl = record {
  worker_id = s;
  client = client_of b;
  ttl_seconds = seconds_or_default ttl;
  running = false;
}
construct now a b ttl = record {
  worker_id = id_or (codes "worker-" ++ show_number now) b;
  client = client_of a;
  ttl_seconds = 30;
  running = false;
}

pub heartbeat_key : Text → Text
heartbeat_key id = codes "heartbeat:" ++ id

-- The key of a ping: an id that has the prefix keeps it.
pub ping_key : Text → Text
unfolding heartbeat_key
ping_key id = if is_prefix (codes "heartbeat:") id then id else heartbeat_key id

-- The time between two pings, in milliseconds.
pub interval : Heartbeat → ℕ
interval h = max 1000 (h.ttl_seconds * 1000 / 3)

module _ (R : Redis) where
  pub write : Client → ℕ → Text → R.Store → R.Store
  write direct now key s = R.set_px now key (codes "active") 30000 s
  write wrapped now key s = R.set now key (codes "active") s
  write absent now key s = s

  pub ping : ℕ → Heartbeat → R.Store → R.Store
  unfolding write ping_key
  ping now h s = write h.client now (ping_key h.worker_id) s

  -- The timer then pings again after every interval.
  unfoldable pub start : ℕ → Heartbeat → R.Store → Heartbeat × R.Store
  unfolding ping
  start now h s = if h.running then (h, s) else (record h { running = true }, ping now h s)

  pub drop_key : Client → ℕ → Text → R.Store → R.Store
  drop_key absent now key s = s
  drop_key _ now key s = R.del now key s

  pub stop : ℕ → Heartbeat → R.Store → Heartbeat × R.Store
  unfolding drop_key heartbeat_key
  stop now h s = (record h { running = false }, drop_key h.client now (heartbeat_key h.worker_id) s)

  pub is_alive : ℕ → Client → Text → R.Store → Bool
  unfolding heartbeat_key
  is_alive now absent id s = false
  is_alive now c id s = is_some (R.get now (heartbeat_key id) s)

  -- The pings of the timer, the first so long after the start.
  pub beats : ℕ → ℕ → Heartbeat → R.Store → R.Store
  unfolding ping
  beats zero now h s = s
  beats (suc n) now h s = beats n (now + interval h) h (ping (now + interval h) h s)
