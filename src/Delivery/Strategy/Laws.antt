-- ===== src/Delivery/Strategy/Laws.antt =====
-- How long the retry strategies wait.
use queue_forge.Base.Ratios.{scale-le, IsFactor, IsDraw, Ratio}
use queue_forge.Delivery.Strategy.{
  fixed, linear, custom, max_retries, exponential, can_retry, calculate_backoff, calculate_delay,
  Config, Kind, RawConfig, uncapped, jittered, make, Strategy,
}
use native.Mathlib.Nat.{one-le-pow, le_trans, two-pow-succ}
use queue_forge.Base.{
  Text, ap, arith, max, min, some, suc, true, ℕ, ◌*◌, ◌+◌, ◌-◌, ◌<◌, ◌^◌, ◌↔◌, ◌∙◌, ◌≡◌, ◌≤◌,
}

-- What the constructor lets through.
pub record IsMade (s : Strategy) : Type 0 where
  pub ordered : s.config.initial_delay_ms ≤ s.config.max_delay_ms
  pub jitter_le_one : s.config.jitter_factor.num ≤ s.config.jitter_factor.den

make-IsMade : (type : Text) (c : RawConfig) (s : Strategy) → make type c ≡ some s → IsMade s
unfolding make
make-IsMade type c s h = ground arith

jittered-le : (base : ℕ) (factor draw : Ratio) → base ≤ jittered base factor draw
unfolding jittered
jittered-le base factor draw = ground arith

-- A positive power of two does not shrink a number.
le-mul-pow : (b n : ℕ) → b ≤ b * 2 ^ n
le-mul-pow b n = grind (arith, one-le-pow n 2)

uncapped-initial :
    (k : Kind) (c : Config) (attempt : ℕ) (draw : Ratio)
    → 1 ≤ attempt
    → c.initial_delay_ms ≤ uncapped k c attempt draw
unfolding uncapped
uncapped-initial exponential c attempt draw h =
    le_trans (le-mul-pow c.initial_delay_ms (attempt - 1)) (jittered-le _ c.jitter_factor draw)
uncapped-initial linear c attempt draw h =
    le_trans (grind arith) (jittered-le (c.initial_delay_ms * attempt) c.jitter_factor draw)
uncapped-initial fixed c attempt draw h = omega arith
uncapped-initial (custom s) c attempt draw h = omega arith

-- Every delay of a strategy that the constructor lets through lies between its initial and its
-- longest delay, for every kind, attempt number and draw.
pub calculate_delay_bounds :
    (type : Text) (c : RawConfig) (s : Strategy) (number : ℕ) (draw : Ratio)
    → make type c ≡ some s
    → (s.config.initial_delay_ms ≤ calculate_delay s number draw)
      × (calculate_delay s number draw ≤ s.config.max_delay_ms)
unfolding calculate_delay
calculate_delay_bounds type c s number draw h =
    let v = make-IsMade type c s h in
    let low = uncapped-initial s.type s.config (max 1 number) draw (omega arith) in
    (omega (arith, v.ordered), omega arith)

jittered-le-double :
    (base : ℕ) (factor draw : Ratio)
    → IsFactor factor
    → IsDraw draw
    → jittered base factor draw ≤ base + base
unfolding jittered
jittered-le-double base factor draw hf hd = ground (arith, scale-le base factor draw hf hd)

-- Twice the base of an attempt is the base of the next one.
double-base : (b n : ℕ) → b * 2 ^ n + b * 2 ^ n ≡ b * 2 ^ suc n
double-base b n = omega (arith, ap (λ (t : ℕ). b * t) (two-pow-succ n))

-- The delay of an exponential strategy, without the attempt's lower bound of 1.
exponential_delay :
    (s : Strategy) (n : ℕ) (draw : Ratio)
    → s.type ≡ exponential
    → calculate_delay s (suc n) draw
      ≡ min
          (jittered (s.config.initial_delay_ms * 2 ^ n) s.config.jitter_factor draw)
          s.config.max_delay_ms
unfolding calculate_delay uncapped
exponential_delay s n draw k =
    let e : max 1 (suc n) - 1 ≡ n = omega arith in
    ap (λ t. min (uncapped t s.config (max 1 (suc n)) draw) s.config.max_delay_ms) k
    ∙ ap
        (λ (m : ℕ).
          min (jittered (s.config.initial_delay_ms * 2 ^ m) s.config.jitter_factor draw)
            s.config.max_delay_ms)
        e

-- The delays of an exponential strategy never shrink from one attempt to the next, whatever is
-- drawn for either, if the jitter factor is at most 1 and what is drawn is below 1.
calculate_delay_mono :
    (s : Strategy) (n : ℕ) (draw draw' : Ratio)
    → s.type ≡ exponential
    → IsFactor s.config.jitter_factor
    → IsDraw draw
    → calculate_delay s (suc n) draw ≤ calculate_delay s (suc (suc n)) draw'
calculate_delay_mono s n draw draw' k hf hd =
    let i = s.config.initial_delay_ms in
    let f = s.config.jitter_factor in
    omega (
      arith,
      exponential_delay s n draw k,
      exponential_delay s (suc n) draw' k,
      jittered-le-double (i * 2 ^ n) f draw hf hd,
      double-base i n,
      jittered-le (i * 2 ^ suc n) f draw',
    )

-- `calculateBackoff` is no alias of `calculateDelay`: from attempt 2 on an exponential strategy
-- answers with the delay of the attempt after, and up to attempt 1 with the delay of attempt 1.
calculate_backoff-calculate_delay :
    (s : Strategy) (n : ℕ) (draw : Ratio)
    → s.type ≡ exponential
    → (2 ≤ n → calculate_backoff s n draw ≡ calculate_delay s (suc n) draw)
      × (n ≤ 1 → calculate_backoff s n draw ≡ calculate_delay s 1 draw)
unfolding calculate_backoff
calculate_backoff-calculate_delay s n draw k =
    (λ h. ground (arith, exponential_delay s n draw k), λ h. ground arith)

-- A strategy lets exactly the attempt counts below its `maxRetries`, or 5, be retried.
can_retry_iff : (s : Strategy) (count : ℕ) → (can_retry s count ≡ true) ↔ (count < max_retries s)
unfolding can_retry max_retries
can_retry_iff s count = (λ h. ground arith, λ h. ground arith)
