-- ===== src/Artifacts.antt =====
-- The record sets of plans and layers, from src/artifacts/merge.rs.
pub mod Edges
pub mod Nodes
pub mod Remove
pub mod Cycle
pub mod Merge
pub mod Examples
