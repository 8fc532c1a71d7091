-- ===== src/Protocol.antt =====
-- crates/librewave-protocol: identities, message schemas, field codecs, configurations and USB
-- setup packets of the Wave:3.
pub mod Identity
pub mod Fields
pub mod Schema
pub mod Codec
pub mod Wave3
pub mod Setup
pub mod Tests
