-- ===== src/Rpc.antt =====
-- src/rpc.rs: the ONC RPC client.
pub mod Payload
