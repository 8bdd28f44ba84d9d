-- ===== src/Sdk.antt =====
-- The functions of the Ledger SDK and of the vendored BLAKE2 code that the application calls.
-- They are parameters: a record of functions, and a record of the laws that their headers document.
pub mod Buffer
pub mod Write
pub mod Blake2b
pub mod Crypto
pub mod Platform
