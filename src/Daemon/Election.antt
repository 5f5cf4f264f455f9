-- ===== src/Daemon/Election.antt =====
-- src/daemon/coordinator/leader-election.ts: one node is to be the leader, by a lease on a Redis
-- key. Redis is an interface, with what its documentation says of the commands on the one key. A
-- node reaches it by a client of its own or by the wrapper of
-- src/infrastructure/redis/redis-operations.ts, whose `set` takes a time to live for its third
-- argument and answers nothing, and which has no `pexpire`. A call of `participate` or `resign` is one
-- step here, with its commands one after the other; Commands has every command a step of its own.
-- Logs are left out.
pub mod Commands
pub mod Split
use queue_forge.Base.{
  Bool, Option, Text, false, if◌then◌else◌, ltb, none, same_codes, some, true, ℕ, ◌&&◌, ◌+◌, ◌-◌,
  ◌<◌, ◌≡◌, ◌≤◌,
}

-- The commands on the leader's key, each at a time: GET, SET, SET with NX and PX, PEXPIRE and DEL.
pub record Redis : Type 1 where
  pub Store : Type 0
  pub get : ℕ → Store → Option Text
  pub set : ℕ → Text → Store → Store
  pub set_nx : ℕ → Text → ℕ → Store → Store × Bool
  pub pexpire : ℕ → ℕ → Store → Store
  pub del : ℕ → Store → Store
  pub get-set : (now t : ℕ) (v : Text) (s : Store) → now ≤ t → get t (set now v s) ≡ some v
  pub set_nx-taken :
      (now ttl : ℕ) (v w : Text) (s : Store) → get now s ≡ some w → set_nx now v ttl s ≡ (s, false)
  pub set_nx-free :
      (now ttl : ℕ) (v : Text) (s : Store) → get now s ≡ none → (set_nx now v ttl s).1 ≡ true
  pub get-set_nx :
      (now ttl t : ℕ) (v : Text) (s : Store)
      → get now s ≡ none
      → now ≤ t
      → t < now + ttl
      → get t (set_nx now v ttl s).0 ≡ some v
  pub get-pexpire :
      (now ttl t : ℕ) (v : Text) (s : Store)
      → get now s ≡ some v
      → now ≤ t
      → t < now + ttl
      → get t (pexpire now ttl s) ≡ some v
  pub get-del : (now t : ℕ) (s : Store) → now ≤ t → get t (del now s) ≡ none

-- A node: what `isLeader` answers, and whether its refresh timer runs.
pub record Node : Type 0 where
  pub is_leader : Bool
  pub refreshing : Bool

abbrev pub lease_ttl : ℕ
lease_ttl = 30000

pub data Client : Type 0 where
  direct wrapped : Client

-- The third argument of the wrapper's `set`.
pub data Ttl : Type 0 where
  no_ttl : Ttl
  millis : ℕ → Ttl
  px : Ttl

-- `ttlMs !== undefined && ttlMs > 0`; the text 'PX' is not greater than 0.
abbrev is_positive : Ttl → Bool
is_positive no_ttl = false
is_positive (millis n) = ltb 0 n
is_positive px = false

same_owner : Text → Option Text → Bool
same_owner id none = false
same_owner id (some v) = same_codes v id

module _ (R : Redis) where
  -- The wrapper's `set`; SET with PX is SET followed by PEXPIRE.
  pub operations_set : ℕ → Text → Ttl → R.Store → R.Store
  operations_set now v (millis n) s =
      if is_positive (millis n) then R.pexpire now n (R.set now v s) else R.set now v s
  operations_set now v _ s = R.set now v s

  -- `redisOps.set(key, id, 'PX', ttl, 'NX')`, and whether it answers 'OK'.
  pub set_lease : Client → ℕ → Text → R.Store → R.Store × Bool
  unfolding operations_set
  set_lease direct now id s = R.set_nx now id lease_ttl s
  set_lease wrapped now id s = (operations_set now id px s, false)

  -- `pexpire?.`
  extend : Client → ℕ → R.Store → R.Store
  extend direct now s = R.pexpire now lease_ttl s
  extend wrapped now s = s

  refresh : Client → ℕ → Text → R.Store → R.Store × Bool
  unfolding same_owner extend
  refresh c now id s = if same_owner id (R.get now s) then (extend c now s, true) else (s, false)

  acquire : Client → ℕ → Text → R.Store × Bool → R.Store × Bool
  unfolding refresh
  acquire c now id (s, true) = (s, true)
  acquire c now id (s, false) = refresh c now id s

  -- `participate`, with its commands one after the other: the store, and whether the node is the leader then; `isLeaderFlag` and the
  -- refresh timer follow the answer.
  unfoldable pub participate : Client → ℕ → Text → R.Store → R.Store × Bool
  unfolding set_lease acquire
  participate c now id s = acquire c now id (set_lease c now id s)

  abbrev pub elected : Bool → Node
  elected b = record { is_leader = b; refreshing = b }

  -- `resign`, with its commands one after the other: a node deletes the key only where it holds it.
  pub resign : ℕ → Text → Node → R.Store → R.Store
  unfolding same_owner
  resign now id n s = if n.is_leader && same_owner id (R.get now s) then R.del now s else s

  -- The nodes by their ids, the time and the store.
  pub record System : Type 0 where
    pub now : ℕ
    pub store : R.Store
    pub nodes : Text → Node

  pub replace : Text → Node → (Text → Node) → Text → Node
  replace id n nodes k = if same_codes id k then n else nodes k

  -- What a node does after some time: it takes part, by its client; it takes part and Redis throws;
  -- or it resigns.
  pub data Move : Type 0 where
    participates : Client → ℕ → Text → Move
    loses_redis : ℕ → Text → Move
    resigns : ℕ → Text → Move

  pub step : Move → System → System
  unfolding participate resign replace
  step (participates c wait id) x =
      let (s, leads) = participate c (x.now + wait) id x.store in
      record { now = x.now + wait; store = s; nodes = replace id (elected leads) x.nodes }
  step (loses_redis wait id) x = record {
    now = x.now + wait;
    store = x.store;
    nodes = replace id (elected false) x.nodes;
  }
  step (resigns wait id) x = record {
    now = x.now + wait;
    store = resign (x.now + wait) id (x.nodes id) x.store;
    nodes = replace id (elected false) x.nodes;
  }
