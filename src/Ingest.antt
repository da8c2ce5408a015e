-- ===== src/Ingest.antt =====
-- The ingestor of src/ingest/: from a stream of records to the resolved graph.
pub mod Outcome
pub mod Spool
pub mod Identity
pub mod Blacklist
pub mod Assembly
pub mod Admit
pub mod SpecRows
pub mod Stream
pub mod Kinds
pub mod Finalize
pub mod EdgePass
pub mod Render
pub mod Records
pub mod Resolve
pub mod Splice
mod Examples
