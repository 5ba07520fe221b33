-- ===== src/Audit.antt =====
-- internal/audit: what is recorded of a request, and the writer that stores it.
pub mod Event
pub mod Report
pub mod Schema
pub mod Sections
pub mod Log
pub mod Store
pub mod Query
pub mod Writer
mod Tests
