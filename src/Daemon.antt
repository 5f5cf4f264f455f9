-- ===== src/Daemon.antt =====
-- The daemons (src/daemon).
pub mod Election
pub mod Delayed
pub mod StateSync
pub mod Reconstruction
pub mod DeadLetters
