-- ===== src/Core/Request.antt =====
-- crates/lemnos-core/src/request/mod.rs: requests to a device and their checks.
pub mod Kinds
pub mod Responses
pub mod Validate
