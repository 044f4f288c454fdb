-- ===== src/RateLimit.antt =====
-- ratelimit: token buckets, sets of buckets, and the limiter that keeps a set for each source.
pub mod Bucket
pub mod Refill
pub mod Consume
pub mod Admission
pub mod BucketSet
pub mod Limiter
mod Tests
