-- ===== src/Repository/IdempotencyCache/Cleaning.antt =====
-- What entries answer, with and without the removal of expired ones.

use queue_forge.Base.Maps.{find-remove, find-put, put, remove, find, Apart}
use queue_forge.Repository.IdempotencyCache.{
  CacheEntry, Table, is_live, live_or_gone, find_key, find_by_composite_key, delete_expired,
  get_composite_key, set, created,
}
use queue_forge.Base.{
  Bool, Bool-cases, Option, Text, [], arith, false, if◌then◌else◌, inl, inr, keep, leb, leb→le,
  length, length-keep-le, le→leb, none, refl, same_codes, same_codes_refl, same_codes→eq, some,
  subst, ℕ, ◌*◌, ◌+◌, ◌<◌, ◌∷◌, ◌≡◌, ◌≤◌,
}

answer : ℕ → Option CacheEntry → Option CacheEntry
answer now none = none
answer now (some e) = if leb e.expires_at now then none else some e

live_or_gone-answer :
    (now : ℕ) (key : Text) (o : Option CacheEntry) (s : Table)
    → (live_or_gone now key o s).1 ≡ answer now o
unfolding live_or_gone answer
live_or_gone-answer now key none s = refl
live_or_gone-answer now key (some e) s = elim (Bool-cases (leb e.expires_at now)) [
  | inl y ↦ rw y refl
  | inr y ↦ rw y refl
]

find_key-answer :
    (now : ℕ) (key : Text) (s : Table) → (find_key now key s).1 ≡ answer now (find key s)
unfolding find_key
find_key-answer now key s = live_or_gone-answer now key (find key s) s

keep-none :
    (f : Text × CacheEntry → Bool) (key : Text) (s : Table)
    → find key s ≡ none
    → find key (keep f s) ≡ none
unfolding find
keep-none f key [] h = refl
keep-none f key ((k, e) ∷ s) h = ground (arith, keep-none f key s)

answer-keep :
    (now t : ℕ) (key : Text) (s : Table)
    → Apart s
    → now ≤ t
    → answer t (find key (keep (is_live now) s)) ≡ answer t (find key s)
unfolding answer is_live Apart find
answer-keep now t key [] a l = refl
answer-keep now t key ((k, e) ∷ s) a l =
    let r = answer-keep now t key s a.1 l in
    elim (Bool-cases (same_codes k key)) [
      | inl y ↦ elim (Bool-cases (leb e.expires_at now)) [
        | inl z ↦
            let n =
              keep-none (is_live now) key s
                (subst (λ j. find j s ≡ none) (same_codes→eq k key y) a.0) in
            rw (z, y, n, le→leb e.expires_at t (omega (arith, leb→le e.expires_at now z, l))) refl
        | inr z ↦ rw (z, y) refl
      ]
      | inr y ↦ elim (Bool-cases (leb e.expires_at now)) [
        | inl z ↦ rw (z, y) r
        | inr z ↦ rw (z, y) r
      ]
    ]

-- On a table with unique keys the removal of the expired entries at one time changes no answer of
-- findByCompositeKey from that time on, and every entry that it leaves is still valid then.
delete_expired_unseen :
    (now : ℕ) (s : Table)
    → Apart s
    → ((t : ℕ) (result destination : Text)
        → now ≤ t
        → (find_by_composite_key t result destination (delete_expired now s).0).1
          ≡ (find_by_composite_key t result destination s).1)
      × ((delete_expired now s).1 + length (delete_expired now s).0 ≡ length s)
unfolding find_by_composite_key delete_expired
delete_expired_unseen now s a = (
  λ t result destination l.
      let key = get_composite_key result destination in
      rw (find_key-answer t key s, find_key-answer t key (keep (is_live now) s))
        (answer-keep now t key s a l),
  omega (arith, length-keep-le (is_live now) s),
)

pub delivery_of : Option CacheEntry → Option Text
delivery_of none = none
delivery_of (some e) = some e.delivery_id

find_key-live :
    (t : ℕ) (key : Text) (e : CacheEntry) (s : Table)
    → find key s ≡ some e
    → t < e.expires_at
    → find_key t key s ≡ (s, some e)
unfolding find_key live_or_gone
find_key-live t key e s h l = rw h (ground arith)

find_key-gone :
    (t : ℕ) (key : Text) (e : CacheEntry) (s : Table)
    → find key s ≡ some e
    → e.expires_at ≤ t
    → find_key t key s ≡ (remove key s, none)
unfolding find_key live_or_gone
find_key-gone t key e s h l = rw (h, le→leb e.expires_at t l) refl

-- An entry is answered with its delivery until the seconds it was set for have passed; from then on
-- it is not, and the first question removes it from the table. What the entries of other composite
-- keys answer stays the same.
pub find-set :
    (now ttl t : ℕ) (result destination delivery : Text) (s : Table)
    → let s' = set now result destination delivery ttl s in
      let (after, o) = find_by_composite_key t result destination s' in
      (t < now + ttl * 1000 → (delivery_of o ≡ some delivery) × (after ≡ s'))
      × (now + ttl * 1000 ≤ t
          → (o ≡ none) × (find (get_composite_key result destination) after ≡ none))
      × ((r d : Text)
          → same_codes (get_composite_key result destination) (get_composite_key r d) ≡ false
          → (find_by_composite_key t r d s').1 ≡ (find_by_composite_key t r d s).1)
unfolding find_by_composite_key set delivery_of
find-set now ttl t result destination delivery s =
    let key = get_composite_key result destination in
    let e : CacheEntry = record {
      delivery_id = delivery;
      expires_at = now + ttl * 1000;
      created_at = created now (find key s);
    } in
    let f : find key (put key e s) ≡ some e = rw (find-put key key e s, same_codes_refl key) refl in
    (
      λ l. rw (find_key-live t key e (put key e s) f l) (refl, refl),
      λ l.
          rw (find_key-gone t key e (put key e s) f l)
            (refl, rw (find-remove key key (put key e s), same_codes_refl key) refl),
      λ r d h.
          let k = get_composite_key r d in
          rw (find_key-answer t k (put key e s), find_key-answer t k s, find-put k key e s, h) refl,
    )
