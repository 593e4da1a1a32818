-- ===== src/Archive.antt =====
-- internal/infrastructure/archive.
pub mod Extract
pub mod Bounds
mod Examples
