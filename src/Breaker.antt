-- ===== src/Breaker.antt =====
-- The circuit breaker (src/resilience/circuit-breaker). A method takes the time `now` that its
-- calls of Date.now() see; logs and tracing spans are left out.
pub mod State
pub mod Metrics
pub mod Circuit
pub mod Rate
pub mod Registry
