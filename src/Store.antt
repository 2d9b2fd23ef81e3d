-- ===== src/Store.antt =====
-- src/modules/bridge/operation_store.rs: the durable table of bridge operations.
mod Row
mod Updates
mod Statements
mod Effects
mod Methods
mod Claim
mod Keys
mod Leases
mod Listing
pub mod Step
pub mod Evolution
pub mod Invariant
pub mod Following
pub mod Idempotency
pub mod Uniqueness
pub mod CompareAndSet
pub mod LeaseExclusion
pub mod LeaseGenerations
pub mod Candidates
pub mod Failing
pub mod ClaimMatching
unfoldable pub use Row.*
unfoldable pub use Updates.*
unfoldable pub use Statements.*
unfoldable pub use Effects.*
unfoldable pub use Methods.*
unfoldable pub use Claim.*
unfoldable pub use Keys.*
unfoldable pub use Leases.*
unfoldable pub use Listing.*
