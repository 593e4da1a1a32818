-- ===== src/Config.antt =====
-- internal/config/load.go.
pub mod Types
pub mod Resolve
pub mod Settings
pub mod Validate
pub mod Apart
pub mod Environment
pub mod Resolved
mod Examples
