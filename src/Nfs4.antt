-- ===== src/Nfs4.antt =====
-- src/nfs4.rs and src/nfs4/: the NFSv4.1 client.
pub mod OpCode
pub mod Status
pub mod Types
pub mod Writer
pub mod Ops
pub mod Compound
pub mod Body
pub mod Replies
pub mod Session
pub mod Slots
