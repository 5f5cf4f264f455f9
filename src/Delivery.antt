-- ===== src/Delivery.antt =====
-- The delivery domain: its value objects and the Delivery entity (src/domain).
pub mod Status
pub mod Failure
pub mod Attempt
pub mod Strategy
pub mod Entity
