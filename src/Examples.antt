-- ===== src/Examples.antt =====
-- The theorems at concrete inputs.
mod Deliveries
mod Statuses
mod Breakers
mod Bulkheads
mod Retries
mod Limits
mod Services
mod Workers
mod Daemons
mod Places
mod Doubles
mod Secrets
mod Queues
