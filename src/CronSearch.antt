-- ===== src/CronSearch.antt =====
-- internal/controller/cronsearch_controller.go: the cron search reconciler.
pub mod Schedule
pub mod Children
pub mod History
pub mod Reconcile
mod Tests
