-- ===== src/LockTable.antt =====
-- src/lock_table.rs: a bounded table of locks, one for each key, and its clients.
mod Table
mod Actions
unfoldable pub use Table.*
unfoldable pub use Actions.*
pub mod Entries
pub mod Room
pub mod Bounds
pub mod Backing
pub mod Exclusion
