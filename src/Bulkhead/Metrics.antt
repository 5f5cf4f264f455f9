-- ===== src/Bulkhead/Metrics.antt =====
-- src/resilience/bulkhead/bulkhead-metrics.ts.
use queue_forge.Base.{suc, ℕ, ◌-◌}

pub record Metrics : Type 0 where
  pub active : ℕ
  pub queued : ℕ
  pub rejected : ℕ
  pub total_acquires : ℕ
  pub total_releases : ℕ

unfoldable pub empty : Metrics
empty = record { active = 0; queued = 0; rejected = 0; total_acquires = 0; total_releases = 0 }

unfoldable pub reset : Metrics → Metrics
unfolding empty
reset m = empty

unfoldable pub record_acquire : Metrics → Metrics
record_acquire m = record m { active = suc m.active; total_acquires = suc m.total_acquires }

-- Subtraction stops at 0, as `Math.max(0, ·)` does.
unfoldable pub record_release : Metrics → Metrics
record_release m = record m { active = m.active - 1; total_releases = suc m.total_releases }

unfoldable pub record_queued : Metrics → Metrics
record_queued m = record m { queued = suc m.queued }

unfoldable pub record_dequeued : Metrics → Metrics
record_dequeued m = record m { queued = m.queued - 1 }

unfoldable pub record_rejection : Metrics → Metrics
record_rejection m = record m { rejected = suc m.rejected }
