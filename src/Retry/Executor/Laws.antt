-- ===== src/Retry/Executor/Laws.antt =====
-- The executor ends, after at most as many attempts as its policy allows.
use queue_forge.Retry.Metrics
use queue_forge.Retry.Policy.{get_next_delay, Policy, should_retry}
use queue_forge.Retry.Metrics.{Metrics}
use queue_forge.Retry.Executor.{
  first_attempt, execute, Round, Problem, unexpected, goes_on, thrown, attempt, value, loop, Result,
}
use queue_forge.Base.{
  Sum-cases, Bool-cases, Option, ap, arith, false, inl, inr, none, refl, some, suc, true, zero, ℕ,
  ◌+◌, ◌-◌, ◌<◌, ◌∙◌, ◌≡◌, ◌≤◌,
}

-- What a run adds to the metrics: its attempts, each of which succeeds or fails.
pub record IsCounted (limit : ℕ) (m m' : Metrics) : Type 0 where
  pub some_attempt : suc m.total_attempts ≤ m'.total_attempts
  pub bounded : m'.total_attempts ≤ m.total_attempts + limit
  pub split :
      m'.total_attempts + m.successful_attempts + m.failed_attempts
      ≡ m.total_attempts + m'.successful_attempts + m'.failed_attempts
  pub one_end :
      m'.successful_attempts + m'.max_retries_exceeded
      ≡ suc (m.successful_attempts + m.max_retries_exceeded)

-- The metrics at the end of a failed attempt.
failed : Metrics → Metrics
failed m = Metrics.record_failure (Metrics.record_attempt m)

again-IsCounted :
    (m m' : Metrics) (rest ms : ℕ)
    → 0 < rest
    → IsCounted (suc (rest - 1)) (Metrics.record_delay ms (failed m)) m'
    → IsCounted (suc rest) m m'
unfolding failed Metrics.record_attempt Metrics.record_failure Metrics.record_delay
again-IsCounted m m' rest ms h v = ground arith

value-IsCounted :
    (number limit : ℕ) (m : Metrics)
    → IsCounted (suc limit) m (Metrics.record_success number (Metrics.record_attempt m))
unfolding Metrics.record_attempt Metrics.record_success
value-IsCounted number limit m = ground arith

throws-IsCounted :
    (limit : ℕ) (m : Metrics)
    → IsCounted (suc limit) m (Metrics.record_max_retries_exceeded (failed m))
unfolding failed Metrics.record_attempt Metrics.record_failure Metrics.record_max_retries_exceeded
throws-IsCounted limit m = ground arith

module _ {ℓ} {A E : Type ℓ} where
  -- A value or an error of an attempt, not the end of the loop without either.
  abbrev pub IsSettled : Option (Result A E) → Type 0
  IsSettled none = ⊥
  IsSettled (some (value a)) = Unit {0}
  IsSettled (some (thrown e)) = Unit {0}
  IsSettled (some unexpected) = ⊥

  loop-value :
      (p : Policy (Problem E)) (script : ℕ → Round A E) (fuel number : ℕ) (m : Metrics) (a : A)
      → number ≤ p.max_attempts
      → attempt p (script number) ≡ inl a
      → loop p script (suc fuel) number m
        ≡ (Metrics.record_success number (Metrics.record_attempt m), some (value a))
  unfolding loop
  loop-value p script fuel number m a h e = rw e (ground arith)

  loop-again :
      (p : Policy (Problem E)) (script : ℕ → Round A E) (fuel number : ℕ) (m : Metrics)
      (e : Problem E)
      → number ≤ p.max_attempts
      → attempt p (script number) ≡ inr e
      → goes_on p (script number) number e ≡ true
      → loop p script (suc fuel) number m
        ≡ loop p script fuel
            (suc number)
            (Metrics.record_delay (get_next_delay p number (script number).draw) (failed m))
  unfolding loop failed
  loop-again p script fuel number m e h a g = rw (a, g) (ground arith)

  loop-throws :
      (p : Policy (Problem E)) (script : ℕ → Round A E) (fuel number : ℕ) (m : Metrics)
      (e : Problem E)
      → number ≤ p.max_attempts
      → attempt p (script number) ≡ inr e
      → goes_on p (script number) number e ≡ false
      → loop p script (suc fuel) number m
        ≡ (Metrics.record_max_retries_exceeded (failed m), some (thrown e))
  unfolding loop failed
  loop-throws p script fuel number m e h a g = rw (a, g) (ground arith)

  goes_on-lt :
      (p : Policy (Problem E)) (r : Round A E) (number : ℕ) (e : Problem E)
      → goes_on p r number e ≡ true
      → number < p.max_attempts
  unfolding goes_on should_retry
  goes_on-lt p r number e h = ground arith

  loop_settles :
      (p : Policy (Problem E)) (script : ℕ → Round A E) (fuel number rest : ℕ) (m : Metrics)
      → number + rest ≡ p.max_attempts
      → rest < fuel
      → let (m', result) = loop p script fuel number m in
        IsSettled result × IsCounted (suc rest) m m'
  loop_settles p script zero number rest m h f = absurd (omega arith)
  loop_settles p script (suc fuel) number rest m h f =
      elim (Sum-cases (attempt p (script number))) [
        | inl (a, ea) ↦
            rw (loop-value p script fuel number m a (omega arith) ea)
              (tt, value-IsCounted number rest m)
        | inr (e, ee) ↦ elim (Bool-cases (goes_on p (script number) number e)) [
          | inl g ↦
              let more = goes_on-lt p (script number) number e g in
              let ms = get_next_delay p number (script number).draw in
              let (settled, counted) =
                loop_settles p script fuel (suc number) (rest - 1)
                  (Metrics.record_delay ms (failed m)) (omega arith) (omega arith) in
              rw (loop-again p script fuel number m e (omega arith) ee g)
                (settled, again-IsCounted m _ rest ms (omega arith) counted)
          | inr g ↦
              rw (loop-throws p script fuel number m e (omega arith) ee g)
                (tt, throws-IsCounted rest m)
        ]
      ]

  -- Every run that begins with an attempt that the policy allows ends with a value or an error of an
  -- attempt, and not by the end of the loop or of the fuel. It makes at least one attempt and at
  -- most those that the policy allows from there on; its metrics count each attempt as a success
  -- or a failure, and the run as one success or as one that gave up.
  pub execute_settles :
      (p : Policy (Problem E)) (script : ℕ → Round A E) (start : Option ℕ) (m : Metrics)
      → first_attempt start ≤ p.max_attempts
      → let (m', result) = execute p script start m in
        IsSettled result × IsCounted (suc (p.max_attempts - first_attempt start)) m m'
  unfolding execute
  execute_settles p script start m h =
      loop_settles p script (suc p.max_attempts) (first_attempt start)
        (p.max_attempts - first_attempt start) m (omega arith) (omega arith)

  -- The attempts from a number on, so many of them, fail and are tried again.
  abbrev pub AllRetried : Policy (Problem E) → (ℕ → Round A E) → ℕ → ℕ → Type ℓ
  AllRetried p script number zero = Unit
  AllRetried p script number (suc k) =
      ((e : Problem E) × (attempt p (script number) ≡ inr e)
        × (goes_on p (script number) number e ≡ true))
      × AllRetried p script (suc number) k

  loop_reaches :
      (p : Policy (Problem E)) (script : ℕ → Round A E) (fuel number k : ℕ) (m : Metrics) (a : A)
      → AllRetried p script number k
      → attempt p (script (number + k)) ≡ inl a
      → number + k ≤ p.max_attempts
      → k < fuel
      → let (m', result) = loop p script fuel number m in
        (result ≡ some (value a)) × (m'.total_attempts ≡ m.total_attempts + suc k)
  unfolding Metrics.record_attempt Metrics.record_success Metrics.record_failure
      Metrics.record_delay failed
  loop_reaches p script zero number k m a r e h f = absurd (omega arith)
  loop_reaches p script (suc fuel) number zero m a r e h f =
      let e' : attempt p (script number) ≡ inl a =
        ap (λ (n : ℕ). attempt p (script n)) (omega arith) ∙ e in
      rw (loop-value p script fuel number m a (omega arith) e') (refl, ground arith)
  loop_reaches p script (suc fuel) number (suc k) m a ((err, ea, g), r) e h f =
      let ms = get_next_delay p number (script number).draw in
      let e' : attempt p (script (suc number + k)) ≡ inl a =
        ap (λ (n : ℕ). attempt p (script n)) (omega arith) ∙ e in
      let (result, total) =
        loop_reaches p script fuel (suc number) k (Metrics.record_delay ms (failed m)) a r e'
          (omega arith) (omega arith) in
      rw (loop-again p script fuel number m err (omega arith) ea g) (result, omega arith)

  -- Where the first attempts fail and are tried again, and the one after them, which the policy
  -- allows, returns a value in time, the run returns that value after exactly these attempts.
  pub execute_reaches :
      (p : Policy (Problem E)) (script : ℕ → Round A E) (k : ℕ) (m : Metrics) (a : A)
      → AllRetried p script 1 k
      → attempt p (script (1 + k)) ≡ inl a
      → 1 + k ≤ p.max_attempts
      → let (m', result) = execute p script none m in
        (result ≡ some (value a)) × (m'.total_attempts ≡ m.total_attempts + suc k)
  unfolding execute
  execute_reaches p script k m a r e h =
      loop_reaches p script (suc p.max_attempts) 1 k m a r e h (omega arith)
