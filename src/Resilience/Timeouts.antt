-- ===== src/Resilience/Timeouts.antt =====
-- src/resilience/timeout/timeout-manager.ts: the time limit of each kind of operation.
use queue_forge.Base.Int.{is_negative, pos, clamp_zero, ℤ}
use queue_forge.Base.Maps.{find-put, find, put}
use queue_forge.Base.{
  lower-lower, List, Option, Text, [], arith, codes, false, if◌then◌else◌, leb, lower, none,
  or_else, refl, same_codes, same_codes_refl, some, suc, true, ℕ, ◌≡◌, ◌⊎◌,
}

-- The limits that the configuration may set.
pub record Limits : Type 0 where
  pub http : Option ℕ
  pub database : Option ℕ
  pub redis : Option ℕ
  pub queue : Option ℕ

-- The constructor.
unfoldable pub make : Limits → List (Text × ℕ)
make l = put (codes "queue") (or_else l.queue 30000) (
    put (codes "redis") (or_else l.redis 10000) (
      put (codes "database") (or_else l.database 60000)
        (put (codes "http") (or_else l.http 30000) [])))

get_timeout : Text → List (Text × ℕ) → ℕ
get_timeout operation m = or_else (find (lower operation) m) 30000

-- `none` is its error, for a limit that is not positive.
set_custom_timeout : Text → ℤ → List (Text × ℕ) → Option (List (Text × ℕ))
set_custom_timeout operation ms m =
    if leb (clamp_zero ms) 0 then none else some (put (lower operation) (clamp_zero ms) m)

-- A positive limit is read back under its operation's name in any case of letters, and every other
-- operation keeps its limit; another limit is refused.
get_timeout-set_custom_timeout :
    (operation k : Text) (ms : ℤ) (m : List (Text × ℕ))
    → ((n : ℕ)
        → ms ≡ pos (suc n)
        → (m' : List (Text × ℕ)) × (set_custom_timeout operation ms m ≡ some m')
          × (get_timeout operation m' ≡ suc n)
          × (get_timeout (lower operation) m' ≡ suc n)
          × (same_codes (lower operation) (lower k) ≡ false → get_timeout k m' ≡ get_timeout k m))
      × ((is_negative ms ≡ true) ⊎ (ms ≡ pos 0) → set_custom_timeout operation ms m ≡ none)
unfolding get_timeout set_custom_timeout
get_timeout-set_custom_timeout operation k ms m = (
  λ n e. (
    put (lower operation) (suc n) m,
    ground arith,
    rw (find-put, same_codes_refl) refl,
    rw (lower-lower, find-put, same_codes_refl) refl,
    λ h. rw (find-put, h) refl,
  ),
  λ h. ground arith,
)
