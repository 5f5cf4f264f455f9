-- ===== src/Queue.antt =====
-- src/infrastructure/queue: the jobs of the three queues.
pub mod Serializer
pub mod Manager
