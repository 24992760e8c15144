-- ===== src/Webhook.antt =====
-- internal/webhook/v1beta1: the admission webhooks.
pub mod Dependants
pub mod Crawler
pub mod Downloader
pub mod Uploader
pub mod Profile
pub mod Pipeline
pub mod Search
pub mod CronSearch
pub mod Defaults
pub mod Deletions
pub mod Updates
mod Tests
