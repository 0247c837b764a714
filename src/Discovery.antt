-- ===== src/Discovery.antt =====
-- crates/lemnos-discovery: probes, snapshots of the inventory and their differences.
pub mod Inventory
pub mod Validity
pub mod Replay
pub mod Report
pub mod Run
pub mod Parallel
pub mod Enrich
pub mod Outcome
pub mod Enriched
pub mod Watch
