-- ===== src/Service.antt =====
-- internal/service: profile retrieval and the health of caller sessions.
pub mod CallerHealth
pub mod Profile
pub mod Retrieval
pub mod State
mod Tests
