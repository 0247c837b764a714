-- ===== src/Bus.antt =====
-- crates/lemnos-bus: the sessions through which drivers talk to devices.
pub mod Error
pub mod Session
pub mod Traits
pub mod Buffers
