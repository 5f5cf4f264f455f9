-- ===== src/RateLimit/SlidingWindow.antt =====
-- src/security/rate-limiting/sliding-window-counter.ts: the hits of each key, kept in memory where
-- Redis is not there, or in sorted sets over the wrapper of
-- src/infrastructure/redis/redis-operations.ts, which the program passes. The wrapper has `zadd`,
-- `zcard` and `delete` and none of `zremrangebyscore`, `pexpire` and `zcount`; its commands succeed,
-- and the members that are drawn differ. Times are whole milliseconds.
use queue_forge.Base.Maps.{find-remove, put, find-put, remove, find}
use queue_forge.Base.{
  List, Option, Text, [], arith, false, if◌then◌else◌, length, length-append, ltb, none, refl,
  same_codes, same_codes_refl, some, suc, ℕ, ◌++◌, ◌+◌, ◌<◌, ◌∷◌, ◌≡◌, ◌≤◌,
}

-- `timestamps.filter(ts => ts > now - windowMs)`.
unfoldable pub in_window : ℕ → ℕ → List ℕ → List ℕ
in_window now window [] = []
in_window now window (t ∷ ts) =
    let rest = in_window now window ts in if ltb now (t + window) then t ∷ rest else rest

unfoldable pub timestamps : Option (List ℕ) → List ℕ
timestamps none = []
timestamps (some ts) = ts

abbrev pub Hits : Type 0
Hits = List (Text × List ℕ)

-- Where the hits go: no `redisOps`, or the wrapper.
pub data Backing : Type 0 where
  in_memory wrapped : Backing

-- `fallbackCounts`, and the scores in the sorted set of each key.
pub record Counts : Type 0 where
  pub memory : Hits
  pub sets : Hits

unfoldable pub increment : Backing → ℕ → ℕ → Text → Counts → Counts × ℕ
unfolding in_window timestamps
increment in_memory now window key s =
    let valid = in_window now window (timestamps (find key s.memory)) ++ now ∷ [] in
    (record s { memory = put key valid s.memory }, length valid)
increment wrapped now window key s =
    let scores = timestamps (find key s.sets) ++ now ∷ [] in
    (record s { sets = put key scores s.sets }, length scores)

unfoldable pub get_count : ℕ → ℕ → Text → Counts → ℕ
unfolding in_window timestamps
get_count now window key s = length (in_window now window (timestamps (find key s.memory)))

unfoldable pub reset : Backing → Text → Counts → Counts
reset in_memory key s = record s { memory = remove key s.memory }
reset wrapped key s = record { memory = remove key s.memory; sets = remove key s.sets }

pub in_window-append :
    (now window : ℕ) (ts us : List ℕ)
    → in_window now window (ts ++ us) ≡ in_window now window ts ++ in_window now window us
unfolding in_window
in_window-append now window [] us = refl
in_window-append now window (t ∷ ts) us = ground (arith, in_window-append now window ts us)

pub in_window-twice :
    (now later window : ℕ) (ts : List ℕ)
    → now ≤ later
    → in_window later window (in_window now window ts) ≡ in_window later window ts
unfolding in_window
in_window-twice now later window [] h = refl
in_window-twice now later window (t ∷ ts) h = ground (arith, in_window-twice now later window ts h)

last_hit :
    (now later window : ℕ) → later < now + window → length (in_window later window (now ∷ [])) ≡ 1
unfolding in_window
last_hit now later window h = ground arith

count_after :
    (now later window : ℕ) (ts : List ℕ)
    → now ≤ later
    → later < now + window
    → length (in_window later window (in_window now window ts ++ now ∷ []))
      ≡ suc (length (in_window later window ts))
count_after now later window ts h l =
    rw (in_window-append later window (in_window now window ts) (now ∷ [])) (
      rw (in_window-twice now later window ts h) (
        omega (
          arith,
          length-append (in_window later window ts) (in_window later window (now ∷ [])),
          last_hit now later window l,
        )))

-- In memory, a hit counts once more than before for the key, at any time from the hit on and before
-- its window is over: the hits that the increment forgets are those that would not count any more.
-- Other keys keep theirs, and a reset key has none.
get_count-increment :
    (now later window : ℕ) (key k : Text) (s : Counts)
    → now ≤ later
    → later < now + window
    → (get_count later window key (increment in_memory now window key s).0
        ≡ suc (get_count later window key s))
      × (same_codes key k ≡ false
          → get_count later window k (increment in_memory now window key s).0
            ≡ get_count later window k s)
      × (get_count later window key (reset in_memory key s) ≡ 0)
unfolding get_count increment reset
get_count-increment now later window key k s h l = (
  rw (find-put, same_codes_refl)
      (count_after now later window (timestamps (find key s.memory)) h l),
  λ e. rw (find-put, e),
  rw (find-remove, same_codes_refl) refl,
)
