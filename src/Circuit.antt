-- ===== src/Circuit.antt =====
-- The circuit breaker in front of the external services: `CircuitBreaker`
-- (backend/core/circuit_breaker.py).
pub mod Breaker
pub mod History
mod Tests
