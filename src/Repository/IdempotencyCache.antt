-- ===== src/Repository/IdempotencyCache.antt =====
-- src/infrastructure/repositories/idempotency-cache-repository.ts: entries by composite keys, with
-- the time they expire, removed when they are read too late. The table is a map by its unique key;
-- Prisma's calls succeed, and an entry that was just found is there to be removed. Logs are left
-- out, and so are the methods that only hand on to Prisma.
pub mod Cleaning
use queue_forge.Base.Maps.{put, find, remove}
use queue_forge.Base.{
  Bool, List, Option, Text, codes, if◌then◌else◌, is_some, keep, leb, length, none, not, some, ℕ,
  ◌*◌, ◌++◌, ◌+◌, ◌-◌,
}

pub record CacheEntry : Type 0 where
  pub delivery_id : Text
  pub expires_at : ℕ
  pub created_at : ℕ

abbrev pub Table : Type 0
Table = List (Text × CacheEntry)

pub get_composite_key : Text → Text → Text
get_composite_key result destination = result ++ (codes ":" ++ destination)

-- An expired entry is removed, and not answered.
pub live_or_gone : ℕ → Text → Option CacheEntry → Table → Table × Option CacheEntry
live_or_gone now key none s = (s, none)
live_or_gone now key (some e) s = if leb e.expires_at now then (remove key s, none) else (s, some e)

pub find_key : ℕ → Text → Table → Table × Option CacheEntry
unfolding live_or_gone
find_key now key s = live_or_gone now key (find key s) s

pub find_by_composite_key : ℕ → Text → Text → Table → Table × Option CacheEntry
unfolding find_key get_composite_key
find_by_composite_key now result destination s =
    find_key now (get_composite_key result destination) s

pub created : ℕ → Option CacheEntry → ℕ
created now none = now
created now (some e) = e.created_at

-- The upsert: an entry that is there keeps when it was created.
unfoldable pub set : ℕ → Text → Text → Text → ℕ → Table → Table
unfolding created get_composite_key
set now result destination delivery ttl_seconds s =
    let key = get_composite_key result destination in
    put key
      (record {
        delivery_id = delivery;
        expires_at = now + ttl_seconds * 1000;
        created_at = created now (find key s);
      })
      s

unfoldable exists : ℕ → Text → Text → Table → Table × Bool
unfolding find_by_composite_key
exists now result destination s =
    let (s', o) = find_by_composite_key now result destination s in (s', is_some o)

pub is_live : ℕ → Text × CacheEntry → Bool
is_live now (k, e) = not (leb e.expires_at now)

-- The table and how many entries were removed.
pub delete_expired : ℕ → Table → Table × ℕ
unfolding is_live
delete_expired now s = let s' = keep (is_live now) s in (s', length s - length s')
