-- ===== src/Distributed.antt =====
-- src/distributed/distributed.c: the building blocks of a distributed service. Each is a child of
-- this module; they share no state.
pub mod AuthToken
pub mod CircuitBreaker
pub mod RateLimiter
pub mod ServiceRegistry
pub mod RetryPolicy
pub mod Metrics
pub mod Memory
pub mod Tests
