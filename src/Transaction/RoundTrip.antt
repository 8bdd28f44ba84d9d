-- ===== src/Transaction/RoundTrip.antt =====
-- Serialization and deserialization undo one another.
mod Input
mod Output
pub use Input.*
pub use Output.*
