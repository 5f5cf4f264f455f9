-- ===== src/Breaker/Circuit/Automaton.antt =====
-- The breaker against an automaton that keeps one number: the failures in a row while it is closed,
-- the time at which it opened, or the successes in a row while it is half open.
use queue_forge.Breaker.State.{
  can_attempt_reset, half_open, open_circuit, closed, Snapshot, CircuitState,
}
use queue_forge.Breaker.Circuit.{reset, can_execute, record_failure, record_success, Breaker}
use queue_forge.Breaker.Circuit.Invariant.{
  step-Inv, Inv, resets, asks, fails, succeeds, run, step, Call,
}
use queue_forge.Base.{
  List, [], ap, arith, if◌then◌else◌, leb, or_else, refl, suc, ℕ, ◌+◌, ◌∙◌, ◌∷◌, ◌≡◌,
}

pub data View : Type 0 where
  shut : ℕ → View
  blown : ℕ → View
  probing : ℕ → View

-- The automaton's part of a configuration.
pub record Limits : Type 0 where
  pub threshold : ℕ
  pub timeout : ℕ
  pub success_threshold : ℕ

-- The passing of time.
pub wake : Limits → ℕ → View → View
wake l now (blown t) = if leb (t + l.timeout) now then probing 0 else blown t
wake l now v = v

success : Limits → View → View
success l (shut n) = shut 0
success l (blown t) = blown t
success l (probing n) = if leb l.success_threshold (suc n) then shut 0 else probing (suc n)

pub failing : Limits → ℕ → View → View
failing l now (shut n) = if leb l.threshold (suc n) then blown now else shut (suc n)
failing l now (blown t) = blown t
failing l now (probing n) = blown now

react : Limits → ℕ × Call → View → View
react l (now, succeeds) v = success l (wake l now v)
react l (now, fails) v = failing l now (wake l now v)
react l (now, asks) v = wake l now v
react l (now, resets) v = shut 0

pub react_all : Limits → List (ℕ × Call) → View → View
react_all l [] v = v
react_all l (c ∷ cs) v = react_all l cs (react l c v)

abbrev pub limits : Breaker → Limits
limits b = record {
  threshold = b.config.threshold;
  timeout = b.config.timeout;
  success_threshold = b.config.success_threshold;
}

view_of : CircuitState → Snapshot → View
view_of closed s = shut s.failure_count
view_of open_circuit s = blown (or_else s.opened_at 0)
view_of half_open s = probing s.success_count

pub view : Breaker → View
unfolding view_of
view b = view_of b.snapshot.state b.snapshot

step-limits : (c : ℕ × Call) (b : Breaker) → limits (step c b) ≡ limits b
unfolding step record_success record_failure can_execute reset
step-limits (now, succeeds) b = ground arith
step-limits (now, fails) b = ground arith
step-limits (now, asks) b = ground arith
step-limits (now, resets) b = refl

step-view : (c : ℕ × Call) (b : Breaker) → Inv b → view (step c b) ≡ react (limits b) c (view b)
unfolding step record_success record_failure can_execute reset can_attempt_reset view react wake
    success failing
step-view (now, succeeds) b v = ground arith
step-view (now, fails) b v = ground arith
step-view (now, asks) b v = ground arith
step-view (now, resets) b v = refl

-- Every run of a breaker that satisfies its invariant is a run of the automaton.
pub run-view :
    (cs : List (ℕ × Call)) (b : Breaker)
    → Inv b
    → view (run cs b) ≡ react_all (limits b) cs (view b)
unfolding run react_all
run-view [] b v = refl
run-view (c ∷ cs) b v =
    run-view cs (step c b) (step-Inv c b v)
    ∙ rw (step-limits c b) (ap (react_all (limits b) cs) (step-view c b v))
