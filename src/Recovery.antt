-- ===== src/Recovery.antt =====
-- src/modules/bridge/operation_recovery.rs: what is left after a restart is replayed or reconciled.
mod Driver
pub mod Following
pub mod AtMostOnce
unfoldable pub use Driver.*
