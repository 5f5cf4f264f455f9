-- ===== src/Retry/Backoff.antt =====
-- src/resilience/retry/backoff-calculator.ts and exponential-backoff.ts. Delays are whole
-- milliseconds; a jitter factor and the value that Math.random returns are fractions.
use queue_forge.Base.Int.{pos, is_negative, clamp_zero, ℤ}
use queue_forge.Base.Ratios.{IsDraw, IsFactor, scale_up, scale, Ratio}
use queue_forge.Base.{
  Bool, Option, ap, arith, if◌then◌else◌, leb, ltb, max, min, none, not, some, suc, ℕ, ◌&&◌, ◌*◌,
  ◌+◌, ◌-◌, ◌/◌, ◌<◌, ◌^◌, ◌∙◌, ◌≡◌, ◌≤◌,
}
use native.Mathlib.Nat.{div-mul-le_self, le-div_iff_mul-le, add-div_left, mul_comm, one-le-pow}

-- The first number is the attempt; subtraction stops at 0, as `Math.max(0, ·)` does.
pub exponential_backoff : ℕ → ℕ → ℕ → Ratio → Ratio → ℕ
exponential_backoff attempt base longest factor draw =
    let raw = base * 2 ^ (attempt - 1) in min (raw + scale raw factor draw) longest

unfoldable pub linear_backoff : ℕ → ℕ → ℕ → ℕ
linear_backoff attempt delay longest = min (delay * max 1 attempt) longest

unfoldable pub fixed_backoff : ℤ → ℕ
fixed_backoff delay = clamp_zero delay

unfoldable exponential_backoff_with_jitter : ℕ → ℕ → ℕ → Ratio → Ratio → ℕ
unfolding exponential_backoff
exponential_backoff_with_jitter attempt base longest factor draw =
    exponential_backoff attempt base longest factor draw

-- Whether the arguments pass the checks of `calculateExponentialBackoff`.
accepted : ℤ → ℤ → ℤ → ℤ → ℕ → Bool
accepted count base longest jitter_num jitter_den =
    not (is_negative count)
    && (not (leb (clamp_zero base) 0)
        && (not (ltb (clamp_zero longest) (clamp_zero base))
            && (not (is_negative jitter_num) && leb (clamp_zero jitter_num) jitter_den)))

-- `none` is its ValidationError. The jitter factor is a fraction by its two parts.
calculate_exponential_backoff : ℤ → ℤ → ℤ → ℤ → ℕ → Ratio → Option ℕ
unfolding accepted
calculate_exponential_backoff count base longest jitter_num jitter_den draw =
    let backoff = 2 ^ clamp_zero count * clamp_zero base in
    if accepted count base longest jitter_num jitter_den
    then some (
        min (clamp_zero longest) (
          backoff
          + scale_up backoff (record { num = clamp_zero jitter_num; den = jitter_den }) draw))
    else none

-- Whole quotients, rounded down and up, differ by at most 1.
div-up : (x d : ℕ) → 0 < d → (x / d ≤ (x + d - 1) / d) × ((x + d - 1) / d ≤ suc (x / d))
div-up x d h = (
  (le-div_iff_mul-le h).1 (omega (arith, div-mul-le_self x d)),
  omega (
    arith,
    (le-div_iff_mul-le {k = d} {x = (x + d - 1) / d} {y = d + x} h).1
        (omega (arith, div-mul-le_self (x + d - 1) d)),
    add-div_left x h,
  ),
)

scale-scale_up :
    (n : ℕ) (r s : Ratio)
    → 0 < r.den
    → 0 < s.den
    → (scale n r s ≤ scale_up n r s) × (scale_up n r s ≤ suc (scale n r s))
unfolding scale scale_up
scale-scale_up n r s hr hs = div-up (n * r.num * s.num) (r.den * s.den) (grind arith)

exponential_backoff-suc :
    (n base longest : ℕ) (factor draw : Ratio)
    → let raw = 2 ^ n * base in
      exponential_backoff (suc n) base longest factor draw
      ≡ min (raw + scale raw factor draw) longest
unfolding exponential_backoff
exponential_backoff-suc n base longest factor draw =
    ap (λ (raw : ℕ). min (raw + scale raw factor draw) longest)
      (ap (λ (m : ℕ). base * 2 ^ m) (omega arith) ∙ mul_comm base (2 ^ n))

-- For a positive base up to the longest delay, a jitter factor up to 1 and a draw below 1 the two
-- exponential delays agree up to the rounding: that of the calculator for attempt n + 1 lies
-- between the base and the longest delay, and the function answers for n retries with the same or
-- with 1 ms more, also up to the longest delay.
calculate_exponential_backoff-exponential_backoff :
    (n base longest : ℕ) (factor draw : Ratio)
    → 0 < base
    → base ≤ longest
    → IsFactor factor
    → IsDraw draw
    → let delay = exponential_backoff (suc n) base longest factor draw in
      (base ≤ delay)
      × (delay ≤ longest)
      × ((up : ℕ) × (calculate_exponential_backoff
              (pos n)
              (pos base)
              (pos longest)
              (pos factor.num)
              factor.den
              draw
            ≡ some up)
          × (delay ≤ up)
          × (up ≤ suc delay)
          × (up ≤ longest))
unfolding calculate_exponential_backoff
calculate_exponential_backoff-exponential_backoff n base longest factor draw h l hf hd =
    let raw = 2 ^ n * base in
    let e = exponential_backoff-suc n base longest factor draw in
    let (low, high) = scale-scale_up raw factor draw hf.den_pos hd.den_pos in
    let at_least : base ≤ raw = grind (arith, one-le-pow n 2) in
    (
      omega arith,
      omega arith,
      (
        min longest (raw + scale_up raw factor draw),
        ground arith,
        omega arith,
        omega arith,
        omega arith,
      ),
    )
