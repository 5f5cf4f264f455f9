-- ===== src/Redis/Memory.antt =====
-- A store in memory that is such a Redis: a map from the keys to values with the time they expire.
use queue_forge.Redis.{Redis}
use queue_forge.Base.{
  List, Option, Text, arith, false, if◌then◌else◌, leb, le→leb, none, refl, same_codes,
  same_codes_refl, some, ℕ, ◌+◌, ◌<◌, ◌≡◌, ◌≤◌,
}
use queue_forge.Base.Maps.{find, put, remove, find-put, find-remove}

abbrev Entry : Type 0
Entry = Text × Option ℕ

unfoldable pub live : ℕ → Option Entry → Option Text
live now none = none
live now (some (v, none)) = some v
live now (some (v, some until)) = if leb now until then some v else none

unfoldable pub read : ℕ → Text → List (Text × Entry) → Option Text
unfolding live
read now key s = live now (find key s)

pub read-put_kept :
    (now t : ℕ) (key v : Text) (s : List (Text × Entry))
    → now ≤ t
    → read t key (put key (v, none) s) ≡ some v
unfolding read
read-put_kept now t key v s l = rw (find-put key key (v, none) s, same_codes_refl key) refl

pub read-put :
    (now ttl t : ℕ) (key v : Text) (s : List (Text × Entry))
    → now ≤ t
    → t < now + ttl
    → read t key (put key (v, some (now + ttl)) s) ≡ some v
unfolding read
read-put now ttl t key v s l h =
    rw (find-put key key (v, some (now + ttl)) s, same_codes_refl key)
      (rw (le→leb t (now + ttl) (omega arith)) refl)

pub read-put_late :
    (now ttl t : ℕ) (key v : Text) (s : List (Text × Entry))
    → now + ttl < t
    → read t key (put key (v, some (now + ttl)) s) ≡ none
unfolding read
read-put_late now ttl t key v s h =
    rw (find-put key key (v, some (now + ttl)) s, same_codes_refl key) (ground arith)

pub read-put_other :
    (now ttl t : ℕ) (key other v : Text) (s : List (Text × Entry))
    → same_codes key other ≡ false
    → read t other (put key (v, some (now + ttl)) s) ≡ read t other s
unfolding read
read-put_other now ttl t key other v s d = rw (find-put other key (v, some (now + ttl)) s, d) refl

pub read-remove :
    (now t : ℕ) (key : Text) (s : List (Text × Entry)) → now ≤ t → read t key (remove key s) ≡ none
unfolding read
read-remove now t key s l = rw (find-remove key key s, same_codes_refl key) refl

pub read-remove_other :
    (now t : ℕ) (key other : Text) (s : List (Text × Entry))
    → same_codes key other ≡ false
    → read t other (remove key s) ≡ read t other s
unfolding read
read-remove_other now t key other s d = rw (find-remove other key s, d) refl

abbrev pub memory : Redis
memory = record {
  Store = List (Text × Entry);
  get = read;
  set_px = λ now key v ttl s. put key (v, some (now + ttl)) s;
  del = λ now key s. remove key s;
  set = λ now key v s. put key (v, none) s;
  get-set = read-put_kept;
  get-set_px = read-put;
  get-set_px_late = read-put_late;
  get-set_px_other = read-put_other;
  get-del = read-remove;
  get-del_other = read-remove_other;
}
