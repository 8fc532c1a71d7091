-- ===== src/Daemon.antt =====
-- crates/librewaved: how the daemon changes a control of the device that it manages.
pub mod Control
mod Tests
