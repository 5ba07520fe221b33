-- ===== src/Api.antt =====
-- internal/api: the request path in front of the profile service.
pub mod RateLimit
pub mod ClientIp
pub mod Credential
pub mod Errors
pub mod Handler
pub mod Usage
mod Tests
pub mod Http
pub mod Recorder
pub mod Server
pub mod Middleware
pub mod Image
pub mod Admin
pub mod Router
