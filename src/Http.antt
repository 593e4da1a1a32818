-- ===== src/Http.antt =====
-- internal/interfaces/httpapi and the addresses of internal/config/ipaccess.go.
pub mod Access
pub mod Spoof
pub mod Types
pub mod Server
pub mod Guarded
pub mod Keeps
pub mod Runner
pub mod Answered
mod Examples
