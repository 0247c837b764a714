-- ===== src/Manifest.antt =====
-- crates/lemnos-driver-manifest: what a driver says of itself, and whether it fits a device.
pub mod Rules
pub mod Driver
pub mod Matching
