-- ===== src/Delivery/Attempt.antt =====
-- src/domain/value-objects/retry-attempt.vo.ts: the record of one delivery attempt. Attempt
-- numbers and status codes are natural numbers; a latency may be negative before it is checked.
pub mod Laws
use queue_forge.Base.{
  ℕ, Bool, false, ◌||◌, ◌&&◌, Option, none, some, Text, or_else, if◌then◌else◌, ltb, leb,
}
use queue_forge.Base.Int.{ℤ, is_negative}

pub record Attempt : Type 0 where
  pub number : ℕ
  pub status_code : Option ℕ
  pub error : Option Text
  pub latency_ms : Option ℤ
  pub timestamp : ℕ

abbrev pub bad_status : Option ℕ → Bool
bad_status none = false
bad_status (some c) = ltb c 100 || ltb 599 c

abbrev bad_latency : Option ℤ → Bool
bad_latency none = false
bad_latency (some l) = is_negative l

-- The constructor, at the time `now`; `none` is its ValidationError.
unfoldable pub make : ℕ → ℕ → Option ℕ → Option Text → Option ℤ → Option ℕ → Option Attempt
make now number status error latency timestamp =
    if ltb number 1
    then none
    else if bad_status status
    then none
    else if bad_latency latency
    then none
    else some (record {
      number = number;
      status_code = status;
      error = error;
      latency_ms = latency;
      timestamp = or_else timestamp now;
    })

abbrev success_status : Option ℕ → Bool
success_status none = false
success_status (some c) = leb 200 c && ltb c 300

pub was_successful : Attempt → Bool
was_successful a = success_status a.status_code
