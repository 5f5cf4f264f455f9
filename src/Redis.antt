-- ===== src/Redis.antt =====
-- Redis as the parts that keep keys with a time to live use it: each command at a time, in
-- milliseconds, with what its documentation says of the keys.
pub mod Memory
use queue_forge.Base.{Option, Text, none, same_codes, some, false, ℕ, ◌+◌, ◌<◌, ◌≡◌, ◌≤◌}

-- GET, SET, SET with PX (SETEX, and SET with EX, take a thousandth of its time), and DEL.
pub record Redis : Type 1 where
  pub Store : Type 0
  pub get : ℕ → Text → Store → Option Text
  pub set : ℕ → Text → Text → Store → Store
  pub set_px : ℕ → Text → Text → ℕ → Store → Store
  pub del : ℕ → Text → Store → Store
  pub get-set :
      (now t : ℕ) (key v : Text) (s : Store) → now ≤ t → get t key (set now key v s) ≡ some v
  pub get-set_px :
      (now ttl t : ℕ) (key v : Text) (s : Store)
      → now ≤ t
      → t < now + ttl
      → get t key (set_px now key v ttl s) ≡ some v
  pub get-set_px_late :
      (now ttl t : ℕ) (key v : Text) (s : Store)
      → now + ttl < t
      → get t key (set_px now key v ttl s) ≡ none
  pub get-set_px_other :
      (now ttl t : ℕ) (key other v : Text) (s : Store)
      → same_codes key other ≡ false
      → get t other (set_px now key v ttl s) ≡ get t other s
  pub get-del : (now t : ℕ) (key : Text) (s : Store) → now ≤ t → get t key (del now key s) ≡ none
  pub get-del_other :
      (now t : ℕ) (key other : Text) (s : Store)
      → same_codes key other ≡ false
      → get t other (del now key s) ≡ get t other s
