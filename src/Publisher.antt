-- ===== src/Publisher.antt =====
-- internal/application/publisher: the release transactions of a node.
pub mod World
pub mod Store
pub mod Steps
pub mod Finish
pub mod Targets
pub mod Command
pub mod Activate
pub mod Prepare
pub mod Apply
pub mod Rollback
pub mod Startup
pub mod Gives
pub mod Invariant
pub mod Laws
pub mod WriteAhead
pub mod Agreement
pub mod Exclusive
pub mod Allowed
pub mod Takeover
pub mod Unique
pub mod Links
pub mod Examples
