-- ===== src/RateLimit/TokenBucket.antt =====
-- src/security/rate-limiting/token-bucket.ts: a bucket of tokens for each key. Times are whole
-- milliseconds, and the refill is whole tokens. `consume` is what happens to the state read for the
-- key, from Redis or from the memory; of the two stores the one in memory is modelled.
use queue_forge.Base.Int.{negsuc, pos, ℤ}
use queue_forge.Base.Maps.{find-put, put, find}
use queue_forge.Base.{
  Bool, List, Option, Text, arith, false, if◌then◌else◌, leb, max, min, none, same_codes, some,
  true, ℕ, ◌*◌, ◌+◌, ◌-◌, ◌/◌, ◌↔◌, ◌≡◌, ◌≤◌,
}

pub record Bucket : Type 0 where
  pub tokens : ℕ
  pub last_refill : ℕ

-- The numbers that the constructor keeps.
pub record Limiter : Type 0 where
  pub capacity : ℕ
  pub refill_rate : ℕ

-- What is added to a bucket; a new one gets nothing. Subtraction stops at 0, as `Math.max(0, ·)`
-- does.
refilled : Limiter → ℕ → Option Bucket → ℕ
refilled l now none = 0
refilled l now (some b) = max l.refill_rate ((now - b.last_refill) * l.refill_rate / 1000)

known_tokens : Limiter → Option Bucket → ℕ
known_tokens l none = l.capacity
known_tokens l (some b) = b.tokens

-- The bucket with its refill, before anything is taken.
refill_to : Limiter → ℕ → Option Bucket → ℕ
unfolding refilled known_tokens
refill_to l now stored = min l.capacity (known_tokens l stored + refilled l now stored)

-- One request at what Redis or the memory holds for its key: the bucket that is written back and
-- whether the request is granted.
consume : Limiter → ℕ → ℕ → Option Bucket → Bucket × Bool
unfolding refill_to
consume l now tokens stored =
    let available = refill_to l now stored in
    if leb tokens available
    then (record { tokens = available - tokens; last_refill = now }, true)
    else (record { tokens = available; last_refill = now }, false)

-- `tryConsume` on the buckets in memory.
try_consume : Limiter → ℕ → Text → ℕ → List (Text × Bucket) → List (Text × Bucket) × Bool
unfolding consume
try_consume l now key tokens m =
    let (b, granted) = consume l now tokens (find key m) in (put key b m, granted)

-- `a - b`, and the floor of a quotient of what may be negative.
minus : ℕ → ℕ → ℤ
minus a b = if leb b a then pos (a - b) else negsuc (b - a - 1)

available_in : Limiter → ℕ → Option Bucket → ℤ
unfolding minus
available_in l now none = pos l.capacity
available_in l now (some b) =
    if leb b.last_refill now
    then pos (min l.capacity (b.tokens + (now - b.last_refill) * l.refill_rate / 1000))
    else minus (min (l.capacity + ((b.last_refill - now) * l.refill_rate + 999) / 1000) b.tokens)
        (((b.last_refill - now) * l.refill_rate + 999) / 1000)

-- `getAvailable`, which refills by the elapsed time alone.
unfoldable get_available : Limiter → ℕ → Text → List (Text × Bucket) → ℤ
unfolding available_in
get_available l now key m = available_in l now (find key m)

-- `refill`: the bucket is full.
unfoldable refill : Limiter → ℕ → Text → List (Text × Bucket) → List (Text × Bucket) × ℕ
refill l now key m = (put key (record { tokens = l.capacity; last_refill = now }) m, l.capacity)

-- A request is granted exactly when the refilled bucket, which never exceeds the capacity, has the
-- tokens; a granted one takes them, a refused one takes none, and the time of refill is now.
consume_exact :
    (l : Limiter) (now tokens : ℕ) (stored : Option Bucket)
    → let (b, granted) = consume l now tokens stored in
      (refill_to l now stored ≤ l.capacity)
      × (b.last_refill ≡ now)
      × ((granted ≡ true) ↔ (tokens ≤ refill_to l now stored))
      × (granted ≡ true → b.tokens + tokens ≡ refill_to l now stored)
      × (granted ≡ false → b.tokens ≡ refill_to l now stored)
unfolding consume
consume_exact l now tokens stored = (
  omega arith,
  ground arith,
  (λ h. ground arith, λ h. ground arith),
  λ h. ground arith,
  λ h. ground arith,
)

consume-known :
    (l : Limiter) (now tokens : ℕ) (stored : Option Bucket)
    → tokens ≤ min l.capacity l.refill_rate
    → (consume l now tokens stored).1 ≡ true
unfolding consume
consume-known l now tokens none h = ground arith
consume-known l now tokens (some b) h = ground arith

-- The bucket does not limit small requests: one of at most the refill rate and the capacity is
-- granted whatever was taken before and however little time has passed. It changes no other key.
try_consume_always :
    (l : Limiter) (now tokens : ℕ) (key k : Text) (m : List (Text × Bucket))
    → tokens ≤ min l.capacity l.refill_rate
    → ((try_consume l now key tokens m).1 ≡ true)
      × (same_codes key k ≡ false → find k (try_consume l now key tokens m).0 ≡ find k m)
unfolding try_consume
try_consume_always l now tokens key k m h =
    (consume-known l now tokens (find key m) h, λ e. rw (find-put, e))
