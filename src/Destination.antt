-- ===== src/Destination.antt =====
-- The destinations that results are delivered to (src/domain).
pub mod Types
pub mod Entity
