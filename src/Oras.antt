-- ===== src/Oras.antt =====
-- internal/infrastructure/oras.
pub mod Manifest
pub mod Accepted
mod Examples
