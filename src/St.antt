-- ===== src/St.antt =====
-- src/domain/st.rs: the values that cross the boundary to SillyTavern.
mod Fence
mod Mode
mod Chat
pub mod Gate
unfoldable pub use Fence.*
unfoldable pub use Mode.*
unfoldable pub use Chat.*
