-- ===== src/Release.antt =====
-- internal/domain/release: the requests, the results and the checks of a request.
pub mod Types
pub mod Identity
pub mod Validate
pub mod Accepted
pub mod Examples
