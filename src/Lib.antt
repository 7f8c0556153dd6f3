-- ===== src/Lib.antt =====
-- The NFSv4.1 client nfs-crust.
--
-- The client mounts an export of an NFS server over TCP. A call of the public interface becomes one or
-- more compounds: lists of NFS operations behind a SEQUENCE operation, encoded in XDR, sent as the
-- payload of an RPC call, and answered by a reply that the client decodes operation by operation.
--
-- Which file models what:
--   Xdr          src/xdr.rs. `XdrEncoder` is a function on the bytes written so far, `XdrDecoder` an
--                action on the bytes still to be read. The buffers of the crate `bytes` are the
--                interface Xdr/ByteBuf, a parameter of every definition that reads or writes; its laws
--                are the documented behaviour of those buffers, and Xdr/ListBuf is an instance.
--   Error        src/error.rs. Messages are left out, since nothing is decided by them.
--   Nfs4         src/nfs4.rs, src/nfs4/ops.rs and src/nfs4/codec.rs: OpCode, Status, Types; Writer and
--                Ops for encoding operations and for their lengths; Compound for compounds with their
--                SEQUENCE; Body for the result bodies, its child Setup for what a new session is
--                negotiated to; Replies for the walk over the replies of a compound
--                (`CompoundReplies`), the decoders of whole compounds in its
--                children Compounds, Publish and Directories, and Retry for what may be sent again,
--                and Sequence for the result of SEQUENCE; Session for the retries of src/nfs4/session.rs; Slots for src/nfs4/slots.rs, a step relation
--                on the slots of a session, their permits and limits.
--   Rpc          src/rpc.rs: the payload of a call and its segments.
--   Client       src/client.rs. Reads: `ChunkScheduler` and what a reply has to satisfy; its child Emit is
--                `PipelinedEmit`; Pipeline has the loop of a pipelined read as a step relation, where
--                the replies come in any order, and Loop as a function of that order; Sequential and
--                Range are the other ways to read. Writes: the writes of a chunk, as actions over the
--                state of a server that may lose on a reboot what is not committed, which is the
--                interface Writes/Server. Publish: what errors mean to
--                the caller.
--   Paths        src/path.rs: parsing of paths and exports.
--   Prelude, Result   what the others share: naturals, lists, machine words, results and actions.
--   Tests        runs and theorems at concrete inputs.
--
-- Numbers are naturals; `usize` and `u64` arithmetic is written with the overflow behaviour of the
-- source (checked or saturating at 2^64), and `as u32` as a remainder. The offsets and counts of a write
-- are added as in a build with overflow checks, where a sum beyond 64 bits panics; the numbers of the
-- attributes in a bitmap wrap at 2^32, as in a build without. A byte is a natural, and a
-- string is its UTF-8 bytes. A failed `expect`, a slice out of range and a read past the end of a
-- buffer are the result `panic`, which the theorems rule out.
--
-- Fuel: the loop of READDIR runs on one round more than there are bytes left, and each round takes at
-- least four bytes. The bits of a bitmap word are taken in 32 rounds. A sequential read of n bytes and
-- a write of n bytes make at most n requests, a pipelined read at most 2 * n steps.
--
-- Not modelled: sockets, tasks, timers and locks of tokio, and logging. The session around its
-- slots and its retries, the framing of RPC, the AWS support, and of the client the steps of a put, directories,
-- pipelined writes and the pool of connections are not modelled.
pub mod Prelude
pub mod Result
pub mod Error
pub mod Xdr
pub mod Paths
pub mod Rpc
pub mod Nfs4
pub mod Tests
pub mod Client
