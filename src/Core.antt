-- ===== src/Core.antt =====
-- crates/lemnos-core: the types that every other crate shares.
pub mod Interface
pub mod Kinds
pub mod Error
pub mod Ids
pub mod Value
pub mod State
pub mod Metadata
pub mod Descriptor
pub mod Event
pub mod Request
pub mod Validity
