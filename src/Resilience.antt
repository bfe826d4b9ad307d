-- ===== src/Resilience.antt =====
-- src/mp_commons/resilience: the policies that guard a call of a dependency.
pub mod CircuitBreaker
pub mod TokenBucket
pub mod Retry
pub mod Fallback
pub mod Bulkhead
pub mod Backpressure
pub mod CacheAside
pub mod DeadLetters
pub mod Shutdown
pub mod RedisBreaker
