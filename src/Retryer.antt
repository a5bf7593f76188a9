-- ===== src/Retryer.antt =====
-- The package retryer: HTTP requests with retries and exponential backoff.
pub mod Backoff
pub mod Request
pub mod Settled
pub mod Laws
pub mod Outcome
pub mod Reference
mod Tests
