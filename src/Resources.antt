-- ===== src/Resources.antt =====
-- internal/resources: references.go and metadata.go.
pub mod Metadata
pub mod References
mod Tests
