-- ===== src/Core.antt =====
-- crates/librewave-core: the portable mixer profile of the product, with the names and applications
-- that it refers to, meter frames and device generations.
pub mod InputName
pub mod Applications
pub mod Mixer
pub mod Meters
pub mod Controls
pub mod DeviceGeneration
pub mod Tests
