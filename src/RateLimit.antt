-- ===== src/RateLimit.antt =====
-- Rate limiting (src/security/rate-limiting).
pub mod TokenBucket
pub mod SlidingWindow
pub mod Limiter
