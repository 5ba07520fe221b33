-- ===== src/Linkedin.antt =====
-- internal/linkedin: the session and credential of a request, the requests, and the parsers.
pub mod Credential
pub mod Status
pub mod Client
pub mod Headers
pub mod Endpoints
pub mod Parse
mod Tests
