-- ===== src/Plan.antt =====
-- Deciding what an image's layers need to place: source/src/extract/plan.rs.
pub mod Key
pub mod Tree
pub mod Removal
pub mod Replay
pub mod Canonicalise
pub mod Placeable
pub mod Directories
pub mod Resolve
