-- ===== src/Platform.antt =====
-- crates/librewave-platform-linux: the parts that decide, over abstract host operations.
pub mod Candidate
pub mod Lifecycle
pub mod Ring
pub mod Inputs
pub mod Snapshot
mod Tests
