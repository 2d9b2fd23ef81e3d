-- ===== src/Errors.antt =====
-- The errors of the bridge: src/modules/bridge/errors.rs, src/modules/bridge/error_mapper.rs and
-- src/error.rs.
mod Codes
mod Bridge
mod Outcome
mod Messages
mod Mapper
pub mod Names
pub mod Binding
pub mod Retry
pub mod Mapping
unfoldable pub use Codes.*
unfoldable pub use Bridge.*
unfoldable pub use Outcome.*
unfoldable pub use Messages.*
unfoldable pub use Mapper.*
