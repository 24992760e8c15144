-- ===== src/Api.antt =====
-- api/v1beta1: the custom resources.
pub mod Common
pub mod Pipeline
pub mod Search
pub mod CronSearch
pub mod Resources
pub mod Environment
