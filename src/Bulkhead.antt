-- ===== src/Bulkhead.antt =====
-- Bulkheads (src/resilience/bulkhead): bounded numbers of operations at a time.
pub mod Pool
pub mod Metrics
pub mod Barrier
pub mod Manager
pub mod Slots
