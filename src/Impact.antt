-- ===== src/Impact.antt =====
-- src/impact: which files an edit makes the scanner emit again.
pub mod DepIndex
pub mod Closure
pub mod Edges
pub mod Signature
pub mod TargetSet
mod Examples
