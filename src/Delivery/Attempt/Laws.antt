-- ===== src/Delivery/Attempt/Laws.antt =====
-- What the constructor of an attempt lets through.
use queue_forge.Delivery.Attempt.{
  success_status, bad_latency, bad_status, Attempt, was_successful, make,
}
use queue_forge.Base.Int.{pos, negsuc, ℤ}
use queue_forge.Base.{
  Option, Text, arith, false, is_some, none, or_else, refl, some, true, ℕ, ◌<◌, ◌↔◌, ◌≡◌, ◌≤◌,
}

abbrev InRange : Option ℕ → Type 0
InRange none = Unit {0}
InRange (some c) = (100 ≤ c) × (c ≤ 599)

abbrev NotNegative : Option ℤ → Type 0
NotNegative none = Unit {0}
NotNegative (some (pos n)) = Unit {0}
NotNegative (some (negsuc n)) = ⊥

good_status : (status : Option ℕ) → InRange status ↔ (bad_status status ≡ false)
good_status none = (λ h. refl, λ h. tt)
good_status (some c) = (λ h. ground arith, λ h. (ground arith, ground arith))

good_latency : (latency : Option ℤ) → NotNegative latency ↔ (bad_latency latency ≡ false)
good_latency none = (λ h. refl, λ h. tt)
good_latency (some (pos n)) = (λ h. refl, λ h. tt)
good_latency (some (negsuc n)) = (λ h. absurd h, λ h. cc)

-- An attempt is made exactly of a number from 1 on, of no status code or one from 100 to 599, and
-- of no latency or one that is not negative; it keeps them, and it is dated now if it has no date.
make_iff :
    (now number : ℕ) (status : Option ℕ) (error : Option Text) (latency : Option ℤ)
    (timestamp : Option ℕ)
    → ((1 ≤ number) × InRange status × NotNegative latency
        → make now number status error latency timestamp
          ≡ some (record {
            number = number;
            status_code = status;
            error = error;
            latency_ms = latency;
            timestamp = or_else timestamp now;
          }))
      × (is_some (make now number status error latency timestamp) ≡ true
          → (1 ≤ number) × InRange status × NotNegative latency)
unfolding make
make_iff now number status error latency timestamp = (
  λ h. ground (arith, (good_status status).0 h.1, (good_latency latency).0 h.2),
  λ h. (
    ground arith,
    (good_status status).1 (ground arith),
    (good_latency latency).1 (ground arith),
  ),
)

success_code :
    (status : Option ℕ)
    → success_status status ≡ true
    → (c : ℕ) × (status ≡ some c) × (200 ≤ c) × (c < 300)
success_code none h = cc
success_code (some c) h = (c, refl, ground arith, ground arith)

-- An attempt that succeeded has a status code from 200 to 299, and no other has.
was_successful_iff :
    (a : Attempt)
    → (was_successful a ≡ true) ↔ ((c : ℕ) × (a.status_code ≡ some c) × (200 ≤ c) × (c < 300))
unfolding was_successful
was_successful_iff a = (λ h. success_code a.status_code h, λ h. ground arith)
