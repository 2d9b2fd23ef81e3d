-- ===== src/Operation.antt =====
-- src/modules/bridge/operations.rs: the durable record of one bridge operation.
mod Status
mod Payload
mod Record
mod Aad
pub mod Lifecycle
pub mod Framing
pub mod Validity
unfoldable pub use Status.*
unfoldable pub use Payload.*
unfoldable pub use Record.*
unfoldable pub use Aad.*
