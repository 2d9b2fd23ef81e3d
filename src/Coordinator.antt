-- ===== src/Coordinator.antt =====
-- src/modules/bridge/operation_coordinator.rs: the operation store joined to the mutation boundary
-- of SillyTavern.
mod Seams
mod Payloads
mod Reports
mod Commit
mod Replay
mod Reconcile
mod Sealing
pub mod Landing
pub mod Following
pub mod Sends
pub mod AtMostOnce
pub mod Replaying
pub mod Identity
pub mod Claims
pub mod Reconciling
pub mod Opening
pub mod Settling
pub mod Refusals
pub mod KeyKeeping
pub mod KeySources
pub mod KeyRestoring
unfoldable pub use Seams.*
unfoldable pub use Payloads.*
unfoldable pub use Reports.*
unfoldable pub use Commit.*
unfoldable pub use Replay.*
unfoldable pub use Sealing.*
unfoldable pub use Reconcile.*
