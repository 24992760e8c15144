-- ===== src/Search.antt =====
-- internal/controller/search_controller.go: the search reconciler.
pub mod Names
pub mod Populate
pub mod Completion
pub mod Reconcile
mod Tests
