-- ===== src/Poller.antt =====
-- src/modules/bridge/poller_ownership.rs: which runtime may poll and write for a Telegram bot.
mod Types
mod Registry
mod Guard
unfoldable pub use Types.*
unfoldable pub use Registry.*
unfoldable pub use Guard.*
pub mod Calls
pub mod Fencing
pub mod Draining
