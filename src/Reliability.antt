-- ===== src/Reliability.antt =====
-- internal/reliability: circuit breaker, retry and rate limiter.
pub mod CircuitBreaker
pub mod Retry
pub mod RateLimiter
pub mod Integration
