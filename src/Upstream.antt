-- ===== src/Upstream.antt =====
-- internal/upstream/guard.go: the circuit breaker, and the guard in front of LinkedIn.
pub mod SubBreaker
pub mod Breaker
pub mod Guard
