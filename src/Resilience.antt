-- ===== src/Resilience.antt =====
-- The smaller parts of src/resilience: timeouts, alarms and load shedding.
pub mod Timeouts
pub mod Alarms
pub mod Shedding
