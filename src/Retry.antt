-- ===== src/Retry.antt =====
-- Retries within one call (src/resilience/retry).
pub mod Backoff
pub mod Metrics
pub mod Policy
pub mod Executor
