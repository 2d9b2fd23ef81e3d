-- ===== src/Redaction.antt =====
-- src/modules/bridge/redaction.rs: secrets are taken out of a text before it is stored or shown.
mod Str
mod Keys
mod Urls
mod Tokens
mod Paths
mod Detail
unfoldable pub use Str.*
unfoldable pub use Keys.*
unfoldable pub use Urls.*
unfoldable pub use Tokens.*
unfoldable pub use Paths.*
unfoldable pub use Detail.*
pub mod Scanning
pub mod Values
pub mod Termination
pub mod Ranges
pub mod OnePass
pub mod Secrecy
pub mod Bounds
pub mod PathScan
pub mod Overlaps
