-- ===== src/Engine.antt =====
-- crates/librewave-engine: configuration, the control and meter handoffs, and clock-rate estimation.
pub mod Handoff
pub mod MeterTransfer
pub mod Config
pub mod Controls
pub mod Staging
pub mod Clock
mod Tests
