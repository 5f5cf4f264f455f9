-- ===== src/Worker.antt =====
-- The worker layer (src/worker).
pub mod Transitions
pub mod Classifier
pub mod Machine
pub mod Recorder
pub mod Executor
pub mod Processor
pub mod Heartbeat
