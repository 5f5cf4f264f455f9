-- ===== src/Retry/Executor.antt =====
-- src/resilience/retry/retry-executor.ts: the loop of attempts. What the function does at each
-- attempt, and the clock, are read from a script by the attempt's number; tracing is left out.
pub mod Laws
use queue_forge.Retry.Metrics
use queue_forge.Retry.Metrics.{Metrics}
use queue_forge.Retry.Policy.{get_next_delay, should_retry, Policy}
use queue_forge.Base.Ratios.{Ratio}
use queue_forge.Base.{
  Bool, Option, false, if◌then◌else◌, inl, inr, ltb, none, some, suc, true, zero, ℕ, ◌&&◌, ◌==◌,
  ◌||◌, ◌⊎◌,
}

-- The function returns a value or throws.
pub data Ran {ℓ} (A E : Type ℓ) : Type ℓ where
  returned : A → Ran A E
  threw : E → Ran A E

-- What is caught: what the function threw, or the executor's TimeoutError with its limit.
pub data Problem {ℓ} (E : Type ℓ) : Type ℓ where
  raised : E → Problem E
  timed_out : ℕ → Problem E

-- An attempt: the time since the start when it begins and when it has failed, what the function
-- does, and the value drawn for the delay.
pub record Round {ℓ} (A E : Type ℓ) : Type ℓ where
  pub begins : ℕ
  pub ran : Ran A E
  pub ends : ℕ
  pub draw : Ratio

pub data Result {ℓ} (A E : Type ℓ) : Type ℓ where
  value : A → Result A E
  thrown : Problem E → Result A E
  unexpected : Result A E

-- `execute` from an attempt on: `context?.attempt || 1`.
abbrev pub first_attempt : Option ℕ → ℕ
first_attempt none = 1
first_attempt (some zero) = 1
first_attempt (some (suc n)) = suc n

module _ {ℓ} {A E : Type ℓ} where
  outcome : Ran A E → A ⊎ Problem E
  outcome (returned a) = inl a
  outcome (threw e) = inr (raised e)

  -- The body of the `try`.
  pub attempt : Policy (Problem E) → Round A E → A ⊎ Problem E
  unfolding outcome
  attempt p r =
      if ltb 0 p.timeout && ltb p.timeout r.begins then inr (timed_out p.timeout) else outcome r.ran

  -- Whether the `catch` tries again.
  pub goes_on : Policy (Problem E) → Round A E → ℕ → Problem E → Bool
  goes_on p r number e = should_retry p e number && ((p.timeout == 0) || ltb r.ends p.timeout)

  -- The loop, with the fuel for its rounds; `none` is that the fuel ran out.
  loop : Policy (Problem E) → (ℕ → Round A E) → ℕ → ℕ → Metrics → Metrics × Option (Result A E)
  unfolding attempt goes_on
  loop p script zero number m = (m, none)
  loop p script (suc fuel) number m =
      let r = script number in
      let m1 = Metrics.record_attempt m in
      let rest = λ (m2 : Metrics).
        loop p script fuel (suc number)
          (Metrics.record_delay (get_next_delay p number r.draw) m2) in
      if ltb p.max_attempts number then (m, some unexpected) else elim (attempt p r) [
        | inl a ↦ (Metrics.record_success number m1, some (value a))
        | inr e ↦ elim (goes_on p r number e) [
          | true ↦ rest (Metrics.record_failure m1)
          | false ↦
              (Metrics.record_max_retries_exceeded (Metrics.record_failure m1), some (thrown e))
        ]
      ]

  unfoldable pub execute :
      Policy (Problem E) → (ℕ → Round A E) → Option ℕ → Metrics → Metrics × Option (Result A E)
  unfolding loop
  execute p script start m = loop p script (suc p.max_attempts) (first_attempt start) m
