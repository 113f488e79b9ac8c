-- ===== src/SafeUtil.antt =====
-- internal/safeutil: throttling, retries and backoff.
pub mod Throttle
pub mod Retry
