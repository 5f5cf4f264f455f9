-- ===== src/Breaker/Circuit/Protection.antt =====
-- When the breaker opens, refuses and closes again.
use queue_forge.Breaker.Metrics
use queue_forge.Breaker.State.{Config, half_open, open_circuit, closed, can_attempt_reset}
use queue_forge.Breaker.Circuit.{
  circuit_open, Ran, Breaker, record_success, can_execute, execute, record_failure,
}
use queue_forge.Breaker.Circuit.Invariant.{step, succeeds, fails, run, Call}
use queue_forge.Base.{List, [], ap, arith, length, some, suc, true, ℕ, ◌+◌, ◌<◌, ◌∷◌, ◌≡◌, ◌≤◌}

failures : List ℕ → List (ℕ × Call)
failures [] = []
failures (t ∷ ts) = (t, fails) ∷ failures ts

successes : List ℕ → List (ℕ × Call)
successes [] = []
successes (t ∷ ts) = (t, succeeds) ∷ successes ts

fail_below :
    (t : ℕ) (b : Breaker)
    → b.snapshot.state ≡ closed
    → suc b.snapshot.failure_count < b.config.threshold
    → ((record_failure t b).snapshot.state ≡ closed)
      × ((record_failure t b).snapshot.failure_count ≡ suc b.snapshot.failure_count)
      × ((record_failure t b).config ≡ b.config)
unfolding record_failure
fail_below t b s h = (ground arith, ground arith, ground arith)

fail_last :
    (t : ℕ) (b : Breaker)
    → b.snapshot.state ≡ closed
    → b.config.threshold ≤ suc b.snapshot.failure_count
    → ((record_failure t b).snapshot.state ≡ open_circuit)
      × ((record_failure t b).snapshot.opened_at ≡ some t)
unfolding record_failure
fail_last t b s h = (ground arith, ground arith)

-- A closed circuit stays closed under fewer failures in a row than the threshold leaves, and opens,
-- at the time of that failure, under the one that reaches the threshold.
failures_open :
    (ts : List ℕ) (t : ℕ) (b : Breaker)
    → b.snapshot.state ≡ closed
    → b.snapshot.failure_count + suc (length ts) ≡ b.config.threshold
    → ((run (failures ts) b).snapshot.state ≡ closed)
      × ((record_failure t (run (failures ts) b)).snapshot.state ≡ open_circuit)
      × ((record_failure t (run (failures ts) b)).snapshot.opened_at ≡ some t)
unfolding run failures step
failures_open [] t b s h = let (s', o) = fail_last t b s (omega arith) in (s, s', o)
failures_open (u ∷ ts) t b s h =
    let (s', n, c) = fail_below u b s (omega arith) in
    failures_open ts t (record_failure u b) s' (omega (arith, ap (λ (k : Config). k.threshold) c))

-- Before its timeout is over an open circuit refuses an operation without running it: the answer
-- does not depend on the operation, and only the counts of calls and refusals change.
execute_refused {ℓ} :
    {A : Type ℓ} (now later : ℕ) (meanwhile : Breaker → Breaker) (ran : Ran A) (b : Breaker)
    (opened : ℕ)
    → b.snapshot.state ≡ open_circuit
    → b.snapshot.opened_at ≡ some opened
    → now < opened + b.config.timeout
    → execute now later meanwhile ran b ≡ (
      record b {
        metrics = record b.metrics {
          total_calls = suc b.metrics.total_calls;
          rejected_calls = suc b.metrics.rejected_calls;
        };
      },
      circuit_open,
    )
unfolding execute can_attempt_reset Metrics.record_call Metrics.record_rejection
execute_refused now later meanwhile ran b opened s o h = ground arith

-- From the end of its timeout on an open circuit lets an operation through, as a half-open one.
open_lets_through :
    (now : ℕ) (b : Breaker) (opened : ℕ)
    → b.snapshot.state ≡ open_circuit
    → b.snapshot.opened_at ≡ some opened
    → opened + b.config.timeout ≤ now
    → ((can_execute now b).1 ≡ true)
      × ((can_execute now b).0.snapshot.state ≡ half_open)
      × ((can_execute now b).0.snapshot.success_count ≡ 0)
unfolding can_execute can_attempt_reset
open_lets_through now b opened s o h = (ground arith, ground arith, ground arith)

succeed_below :
    (t : ℕ) (b : Breaker)
    → b.snapshot.state ≡ half_open
    → suc b.snapshot.success_count < b.config.success_threshold
    → ((record_success t b).snapshot.state ≡ half_open)
      × ((record_success t b).snapshot.success_count ≡ suc b.snapshot.success_count)
      × ((record_success t b).config ≡ b.config)
unfolding record_success
succeed_below t b s h = (ground arith, ground arith, ground arith)

succeed_last :
    (t : ℕ) (b : Breaker)
    → b.snapshot.state ≡ half_open
    → b.config.success_threshold ≤ suc b.snapshot.success_count
    → ((record_success t b).snapshot.state ≡ closed)
      × ((record_success t b).snapshot.failure_count ≡ 0)
unfolding record_success
succeed_last t b s h = (ground arith, ground arith)

fail_half_open :
    (t : ℕ) (b : Breaker)
    → b.snapshot.state ≡ half_open
    → ((record_failure t b).snapshot.state ≡ open_circuit)
      × ((record_failure t b).snapshot.opened_at ≡ some t)
unfolding record_failure
fail_half_open t b s = (ground arith, ground arith)

-- A half-open circuit stays half open under fewer successes in a row than its threshold asks for;
-- the success that reaches the threshold closes it with no failure counted, and a failure in its
-- place opens it again.
successes_close :
    (ts : List ℕ) (t : ℕ) (b : Breaker)
    → b.snapshot.state ≡ half_open
    → b.snapshot.success_count + suc (length ts) ≡ b.config.success_threshold
    → let c = run (successes ts) b in
      (c.snapshot.state ≡ half_open)
      × ((record_success t c).snapshot.state ≡ closed)
      × ((record_success t c).snapshot.failure_count ≡ 0)
      × ((record_failure t c).snapshot.state ≡ open_circuit)
      × ((record_failure t c).snapshot.opened_at ≡ some t)
unfolding run successes step
successes_close [] t b s h =
    let (s', f) = succeed_last t b s (omega arith) in
    let (s'', o) = fail_half_open t b s in (s, s', f, s'', o)
successes_close (u ∷ ts) t b s h =
    let (s', n, c) = succeed_below u b s (omega arith) in
    successes_close ts t (record_success u b) s'
      (omega (arith, ap (λ (k : Config). k.success_threshold) c))

-- No time limit ends the half-open state: however late it is asked, a half-open circuit lets an
-- operation through and is left as it was, whatever its `halfOpenTimeout`.
half_open_stays :
    (now : ℕ) (b : Breaker) → b.snapshot.state ≡ half_open → can_execute now b ≡ (b, true)
unfolding can_execute
half_open_stays now b s = ground arith
