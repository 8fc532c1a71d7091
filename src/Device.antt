-- ===== src/Device.antt =====
-- crates/librewave-device: admitted sessions with a Wave:3 and its control transactions, over an
-- abstract USB transport.
pub mod Transport
pub mod Configs
pub mod Session
pub mod Outcomes
pub mod Transaction
pub mod Tests
