-- ===== src/Handlers.antt =====
-- handler/: one function for each command. A handler's own result code is that of the SDK's sending
-- functions and is not modelled.
pub mod SignTx
pub mod SignMsg
pub mod PublicKey
pub mod Review
pub mod Message
pub mod Approved
pub mod Key
pub mod Refusals
pub mod Shown
pub mod KeyRefusals
pub mod Chunks
