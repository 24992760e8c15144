-- ===== src/Scheduler.antt =====
-- cmd/scheduler/main.go: the program that wraps a crawler and creates what it writes into two named
-- pipes.
pub mod Decoder
pub mod Requests
pub mod Setup
pub mod System
pub mod Main
mod Tests
