-- ===== src/Worker/Processor/Statistics.antt =====
-- The statistics of a worker whose jobs run at the same time, begun and ended in any order.
use native.Mathlib.Nat.{suc-mul, div-le_of_le-mul}
use queue_forge.Worker.Executor.{Ended}
use queue_forge.Worker.Processor.{average_latency, end_job, begin_job, fresh, Stats}
use queue_forge.Base.{arith, refl, suc, ℕ, ◌*◌, ◌+◌, ◌≡◌, ◌≤◌}

-- The statistics that are reached with a number of jobs running and a number of them ended, each
-- with a latency of at most a bound.
pub data Reaches (bound : ℕ) : ℕ → ℕ → Stats → Type 0 where
  idle : Reaches bound 0 0 fresh
  begins :
      {running ended : ℕ} {s : Stats}
      → Reaches bound running ended s
      → Reaches bound (suc running) ended (begin_job s)
  ends :
      {running ended : ℕ} {s : Stats} (latency : ℕ) (e : Ended)
      → latency ≤ bound
      → Reaches bound (suc running) ended s
      → Reaches bound running (suc ended) (end_job latency e s)

sums :
    {bound running ended : ℕ} {s : Stats}
    → Reaches bound running ended s
    → (s.active_jobs ≡ running)
      × (s.jobs_processed + s.jobs_failed ≡ ended)
      × (s.total_latency ≤ ended * bound)
unfolding fresh begin_job end_job
sums idle = (refl, refl, omega arith)
sums (begins r) = let (a, b, c) = sums r in (omega (arith, a), b, c)
sums {bound} {running} (ends {ended = n} latency e l r) =
    let (a, b, c) = sums r in
    (omega (arith, a), ground (arith, b), rw (suc-mul n bound) (omega (arith, c, l)))

-- However the jobs of a worker overlap, the number of active ones is that of the running ones, the
-- processed and the failed are together the ended ones, and the average latency is at most any bound
-- on the jobs' latencies.
pub statistics_agree :
    {bound running ended : ℕ} {s : Stats}
    → Reaches bound running ended s
    → (s.active_jobs ≡ running)
      × (s.jobs_processed + s.jobs_failed ≡ ended)
      × (average_latency s ≤ bound)
unfolding average_latency
statistics_agree {bound} {running} {ended} {s} r =
    let (a, b, c) = sums r in
    let h : s.total_latency ≤ (s.jobs_processed + s.jobs_failed) * bound = rw b c in
    (a, b, ground (arith, div-le_of_le-mul (s.jobs_processed + s.jobs_failed) h))
