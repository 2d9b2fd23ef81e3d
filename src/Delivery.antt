-- ===== src/Delivery.antt =====
-- src/modules/telegram/delivery_queue.rs: when a delivery to Telegram may be tried, and which is next.
mod Cooldown
mod Pending
unfoldable pub use Cooldown.*
unfoldable pub use Pending.*
pub mod Deadlines
pub mod Waiting
pub mod HandOut
