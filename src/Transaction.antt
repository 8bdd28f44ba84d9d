-- ===== src/Transaction.antt =====
-- transaction/: the types of types.h, and the modules for the functions.
mod Types
pub mod Deserialize
pub mod RoundTrip
pub mod Serialize
pub mod Utils
pub mod Validate
unfoldable pub use Types.*
