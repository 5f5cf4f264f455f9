-- ===== src/Repository.antt =====
-- The repositories over the database (src/infrastructure/repositories).
pub mod Deliveries
pub mod IdempotencyCache
pub mod Destinations
