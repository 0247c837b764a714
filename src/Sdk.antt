-- ===== src/Sdk.antt =====
-- crates/lemnos-driver-sdk: what the runtime, the registry and the drivers share.
pub mod Error
pub mod Matching
pub mod Driver
pub mod Operation
pub mod Session
pub mod Bind
