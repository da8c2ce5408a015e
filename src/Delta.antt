-- ===== src/Delta.antt =====
-- Which scan a checkout needs, from src/delta.rs.
pub mod Verdict
pub mod Compute
pub mod Plan
pub mod Examples
