-- ===== src/Validators.antt =====
-- internal/validators: what is checked of pipelines, profiles and containers.
pub mod Verdict
pub mod Containers
pub mod Volumes
pub mod Pipeline
pub mod Profile
pub mod Names
pub mod Metadata
mod Tests
