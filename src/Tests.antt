-- ===== src/Tests.antt =====
-- Runs of the definitions on concrete inputs, and the theorems at concrete inputs. The buffers of the
-- crate `bytes` are the plain byte lists of Xdr/ListBuf.
mod Wire
mod Bodies
mod Errors
mod Replies
mod Reads
mod Writes
mod Slots
mod Publish
