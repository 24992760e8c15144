-- ===== src/Sidecar.antt =====
-- cmd/sidecar/main.go: the program that wraps scanners and uploaders.
pub mod Marks
pub mod Await
pub mod Main
mod Tests
