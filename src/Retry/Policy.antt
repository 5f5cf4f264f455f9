-- ===== src/Retry/Policy.antt =====
-- src/resilience/retry/retry-policy.ts, outside NODE_ENV=test. Texts are compared on the ASCII
-- letters.
use queue_forge.Retry.Backoff.{exponential_backoff, fixed_backoff, linear_backoff}
use queue_forge.Base.Ratios.{Ratio}
use queue_forge.Base.Int.{pos, clamp_zero, ℤ}
use queue_forge.Base.{
  or_nonzero, Bool, List, Option, Text, [], arith, codes, false, if◌then◌else◌, includes, is_empty,
  leb, lower, max, none, or_text, same_codes, some, true, upper, ℕ, ◌&&◌, ◌-◌, ◌<◌, ◌==◌, ◌||◌, ◌∷◌,
  ◌≡◌,
}

-- What `isTransientError` reads of an error that is an object: the text of its message (or of its
-- stack, or the error as a text), the three places of a status, and its code.
pub record Report : Type 0 where
  pub text : Text
  pub status_code : Option ℕ
  pub status : Option ℕ
  pub response_status : Option ℕ
  pub code : Option Text

-- What is handed over as an error: nothing, a text, or an object.
pub data Caught : Type 0 where
  nothing : Caught
  message : Text → Caught
  object : Report → Caught

transient_status : Option ℕ → Bool
transient_status none = false
transient_status (some n) = (leb 500 n && leb n 599) || ((n == 429) || (n == 408))

transient_code : Text → Bool
transient_code c =
    same_codes c (codes "ETIMEDOUT")
    || (same_codes c (codes "ECONNRESET")
        || (same_codes c (codes "ECONNREFUSED")
            || (same_codes c (codes "ENOTFOUND")
                || (same_codes c (codes "EPIPE")
                    || (same_codes c (codes "EHOSTUNREACH") || same_codes c (codes "EAI_AGAIN"))))))

transient_text : Text → Bool
transient_text s =
    includes s (codes "etimedout")
    || (includes s (codes "timeout")
        || (includes s (codes "econnreset")
            || (includes s (codes "econnrefused")
                || (includes s (codes "connection refused")
                    || (includes s (codes "reset")
                        || (includes s (codes "socket hang up")
                            || (includes s (codes "network error")
                                || includes s (codes "transient"))))))))

unfoldable is_transient_error : Caught → Bool
unfolding transient_status transient_code transient_text
is_transient_error nothing = false
is_transient_error (message s) = if is_empty s then false else transient_text (lower s)
is_transient_error (object r) =
    transient_status (or_nonzero r.status_code (or_nonzero r.status r.response_status))
    || (transient_code (upper (or_text r.code (codes ""))) || transient_text (lower r.text))

-- The policy, on the errors of any type.
pub record Policy {ℓ} (E : Type ℓ) : Type ℓ where
  pub max_attempts : ℕ
  pub strategy : Text
  pub timeout : ℕ
  pub predicates : List (E → Bool)

or_default {ℓ} : {E : Type ℓ} → (E → Bool) → List (E → Bool) → List (E → Bool)
or_default default [] = default ∷ []
or_default default (p ∷ ps) = p ∷ ps

-- The constructor; the first argument is the predicate that stands in for an empty list.
unfoldable pub make {ℓ} : {E : Type ℓ} → (E → Bool) → ℤ → Text → ℤ → List (E → Bool) → Policy E
unfolding or_default
make default attempts strategy timeout predicates = record {
  max_attempts = max 1 (clamp_zero attempts);
  strategy = upper strategy;
  timeout = clamp_zero timeout;
  predicates = or_default default predicates;
}

any_holds {ℓ} : {E : Type ℓ} → E → List (E → Bool) → Bool
any_holds e [] = false
any_holds e (p ∷ ps) = p e || any_holds e ps

get_remaining_attempts {ℓ} : {E : Type ℓ} → Policy E → ℕ → ℕ
get_remaining_attempts p number = p.max_attempts - number

unfoldable pub should_retry {ℓ} : {E : Type ℓ} → Policy E → E → ℕ → Bool
unfolding any_holds
should_retry p e number = if leb p.max_attempts number then false else any_holds e p.predicates

-- 0.2, the factor of `getNextDelay`.
abbrev fifth : Ratio
fifth = record { num = 1; den = 5 }

unfoldable pub get_next_delay {ℓ} : {E : Type ℓ} → Policy E → ℕ → Ratio → ℕ
get_next_delay p number draw =
    if same_codes p.strategy (codes "LINEAR")
    then linear_backoff number 1000 p.timeout
    else if same_codes p.strategy (codes "FIXED")
    then fixed_backoff (pos 1000)
    else exponential_backoff number 1000 p.timeout fifth draw

-- An attempt is retried only while some attempts remain; a policy that the constructor made has at
-- least one attempt and a predicate to ask.
should_retry_remaining {ℓ} :
    {E : Type ℓ} (default : E → Bool) (attempts timeout : ℤ) (strategy : Text)
    (predicates : List (E → Bool)) (e : E) (number : ℕ)
    → let p = make default attempts strategy timeout predicates in
      (should_retry p e number ≡ true → 0 < get_remaining_attempts p number)
      × (0 < get_remaining_attempts p 0)
      × (number < p.max_attempts → predicates ≡ [] → should_retry p e number ≡ default e)
unfolding should_retry get_remaining_attempts make
should_retry_remaining default attempts timeout strategy predicates e number =
    (λ h. ground arith, omega arith, λ h n. ground arith)
