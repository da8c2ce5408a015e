-- ===== src/Cache.antt =====
-- The shared fact store's manifest and its key, from src/cache/manifest.rs.
pub mod Key
pub mod Render
pub mod Manifest
pub mod Fragment
pub mod Examples
