-- ===== src/Xdr.antt =====
-- src/xdr.rs: XDR encoding and decoding. `XdrEncoder` and `XdrDecoder` have one field, the buffer,
-- and stand here as the list of its bytes: the bytes written so far, and the bytes still to be read.
-- `usize` is 64 bits wide. The buffers are the crate `bytes`, which is the parameter `ByteBuf`.
pub mod ByteBuf
pub mod Length
pub mod Encoder
pub mod Decoder
pub mod RoundTrip
pub mod ListBuf
