-- ===== src/Client.antt =====
-- src/client.rs: the operations of the client, made of compounds of a session.
pub mod Reads
pub mod Writes
pub mod Publish
