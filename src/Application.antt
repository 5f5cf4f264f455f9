-- ===== src/Application.antt =====
-- The application services (src/application/services).
pub mod HandleFailure
pub mod ScheduleRetry
pub mod RecoverStale
pub mod ProcessDelivery
pub mod Ingest
