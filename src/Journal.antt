-- ===== src/Journal.antt =====
-- src/modules/bridge/connector_journal.rs: what became of every operation, as the connector notes it.
mod Records
unfoldable pub use Records.*
pub mod Calls
pub mod Settled
pub mod Earned
