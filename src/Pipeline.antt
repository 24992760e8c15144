-- ===== src/Pipeline.antt =====
-- internal/controller/pipeline_controller.go: the pipeline reconciler.
pub mod Watch
pub mod Names
pub mod Stages
pub mod Artifacts
pub mod Environment
pub mod Populate
pub mod Completion
pub mod Reconcile
pub mod Metrics
pub mod Lifecycle
mod Tests
