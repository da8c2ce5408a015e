-- ===== src/Classify.antt =====
-- src/classify.rs: the classification config, the code type of a record, and the glob matcher.
pub mod Glob
pub mod Config
pub mod Builtin
pub mod CodeType
pub mod BuildOutput
pub mod Priority
mod Examples
