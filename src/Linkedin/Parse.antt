-- ===== src/Linkedin/Parse.antt =====
-- internal/linkedin/parse: the normalization of LinkedIn's responses.
pub mod Image
pub mod Links
pub mod Json
pub mod Decode
pub mod Sections
pub mod Order
pub mod TopCard
pub mod Tests
