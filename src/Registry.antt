-- ===== src/Registry.antt =====
-- crates/lemnos-registry: registration, ranking and selection of drivers.
pub mod Defs
pub mod Ranking
pub mod Candidates
pub mod Resolve
pub mod Invariant
