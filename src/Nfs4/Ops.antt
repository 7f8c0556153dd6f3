-- ===== src/Nfs4/Ops.antt =====
-- src/nfs4/ops.rs: the operations of a compound, how they are encoded, and the length that the
-- client computes for them beforehand.
pub mod Length
use nfs_crust.Prelude.{
  ℕ, zero, suc, ◌+◌, ◌*◌, ◌/◌, ◌%◌, ◌^◌, bit_or, Bool, true, false, ◌&&◌, Option, none, some, List,
  [], ◌∷◌, length, ◌==◌, if◌then◌else◌,
}
use nfs_crust.Prelude.Words.{saturating_add, u32_limit}
use nfs_crust.Result.{Result, ok}
use nfs_crust.Result.Try.{◌>>=◌}
use nfs_crust.Error.{Error}
use nfs_crust.Xdr.ByteBuf.{ByteBuf}
use nfs_crust.Xdr.Length.{xdr_fixed_opaque_len, xdr_opaque_len}
use nfs_crust.Xdr.Encoder.{
  XdrEncoder, put_u32, put_u64, put_bool, put_bytes, put_opaque, put_string,
}
use nfs_crust.Nfs4.OpCode.{OpCode, to_u32}
use nfs_crust.Nfs4.Types.{FileHandle, StateId, Bitmap, NfsConfig}
use nfs_crust.Nfs4.Writer.{
  SetAttrs, Writer, writes, u32, u64, raw, flag, encode_file_handle, encode_stateid, encode_bitmap,
  encode_set_attrs, encode_channel_attrs, saturating_encoded_len, set_attrs_len, bitmap_len,
  stateid_len, channel_attrs_len,
}

-- UNSTABLE4 and NF4DIR
abbrev pub unstable4 : ℕ
unstable4 = 0

abbrev pub nf4dir : ℕ
nf4dir = 2

pub data NfsOp : Type 0 where
  put_root_fh save_fh restore_fh get_fh : NfsOp
  put_fh : FileHandle → NfsOp
  lookup link remove : List ℕ → NfsOp
  get_attr : Bitmap → NfsOp
  -- seqid, clientid, owner, name, file_mode
  open_op : ℕ → ℕ → List ℕ → List ℕ → ℕ → NfsOp
  -- seqid, stateid
  close : ℕ → StateId → NfsOp
  -- stateid, offset, count
  read : StateId → ℕ → ℕ → NfsOp
  -- stateid, offset, data
  write : StateId → ℕ → List ℕ → NfsOp
  -- offset, count
  commit : ℕ → ℕ → NfsOp
  -- size
  verify : ℕ → NfsOp
  -- old_name, new_name
  rename : List ℕ → List ℕ → NfsOp
  -- name, mode
  create_dir : List ℕ → ℕ → NfsOp
  -- cookie, verifier, dircount, maxcount, attrs
  read_dir : ℕ → List ℕ → ℕ → ℕ → Bitmap → NfsOp
  -- verifier, owner
  exchange_id : List ℕ → List ℕ → NfsOp
  -- clientid, sequenceid, config
  create_session : ℕ → ℕ → NfsConfig → NfsOp
  -- one_fs
  reclaim_complete : Bool → NfsOp

unfoldable pub opcode : NfsOp → OpCode
opcode put_root_fh = OpCode.put_root_fh
opcode (put_fh fh) = OpCode.put_fh
opcode (lookup name) = OpCode.lookup
opcode save_fh = OpCode.save_fh
opcode restore_fh = OpCode.restore_fh
opcode get_fh = OpCode.get_fh
opcode (get_attr bitmap) = OpCode.get_attr
opcode (open_op seqid clientid owner name file_mode) = OpCode.open_op
opcode (close seqid stateid) = OpCode.close
opcode (read stateid offset count) = OpCode.read
opcode (write stateid offset bytes) = OpCode.write
opcode (commit offset count) = OpCode.commit
opcode (link name) = OpCode.link
opcode (remove name) = OpCode.remove
opcode (verify size) = OpCode.verify
opcode (rename old_name new_name) = OpCode.rename
opcode (create_dir name mode) = OpCode.create
opcode (read_dir cookie verifier dircount maxcount attrs) = OpCode.read_dir
opcode (exchange_id verifier owner) = OpCode.exchange_id
opcode (create_session clientid sequenceid config) = OpCode.create_session
opcode (reclaim_complete one_fs) = OpCode.reclaim_complete

module _ ⦃b : ByteBuf⦄ where
  unfoldable pub encode : NfsOp → Writer
  encode put_root_fh = u32 (to_u32 OpCode.put_root_fh)
  encode (put_fh fh) = writes (u32 (to_u32 OpCode.put_fh) ∷ encode_file_handle fh ∷ [])
  encode (lookup name) = writes (u32 (to_u32 OpCode.lookup) ∷ put_string name ∷ [])
  encode save_fh = u32 (to_u32 OpCode.save_fh)
  encode restore_fh = u32 (to_u32 OpCode.restore_fh)
  encode (verify size) = writes (
      u32 (to_u32 OpCode.verify) ∷ encode_set_attrs (record { size = some size; mode = none }) ∷ [])
  encode get_fh = u32 (to_u32 OpCode.get_fh)
  encode (get_attr bitmap) = writes (u32 (to_u32 OpCode.get_attr) ∷ encode_bitmap bitmap ∷ [])
  encode (open_op seqid clientid owner name file_mode) = writes (
      u32 (to_u32 OpCode.open_op)
      ∷ u32 seqid
      ∷ u32 (bit_or 0x2 0x400)
      ∷ u32 0
      ∷ u64 clientid
      ∷ put_opaque owner
      ∷ u32 1
      ∷ u32 1
      ∷ encode_set_attrs (record { size = some 0; mode = some file_mode })
      ∷ u32 0
      ∷ put_string name
      ∷ [])
  encode (close seqid stateid) =
      writes (u32 (to_u32 OpCode.close) ∷ u32 seqid ∷ encode_stateid stateid ∷ [])
  encode (read stateid offset count) =
      writes (u32 (to_u32 OpCode.read) ∷ encode_stateid stateid ∷ u64 offset ∷ u32 count ∷ [])
  encode (write stateid offset bytes) = writes (
      u32 (to_u32 OpCode.write)
      ∷ encode_stateid stateid
      ∷ u64 offset
      ∷ u32 unstable4
      ∷ put_opaque bytes
      ∷ [])
  encode (commit offset count) = writes (u32 (to_u32 OpCode.commit) ∷ u64 offset ∷ u32 count ∷ [])
  encode (link name) = writes (u32 (to_u32 OpCode.link) ∷ put_string name ∷ [])
  encode (remove name) = writes (u32 (to_u32 OpCode.remove) ∷ put_string name ∷ [])
  encode (rename old_name new_name) =
      writes (u32 (to_u32 OpCode.rename) ∷ put_string old_name ∷ put_string new_name ∷ [])
  encode (create_dir name mode) = writes (
      u32 (to_u32 OpCode.create)
      ∷ u32 nf4dir
      ∷ put_string name
      ∷ encode_set_attrs (record { size = none; mode = some mode })
      ∷ [])
  encode (read_dir cookie verifier dircount maxcount attrs) = writes (
      u32 (to_u32 OpCode.read_dir)
      ∷ u64 cookie
      ∷ raw verifier
      ∷ u32 dircount
      ∷ u32 maxcount
      ∷ encode_bitmap attrs
      ∷ [])
  encode (exchange_id verifier owner) = writes (
      u32 (to_u32 OpCode.exchange_id)
      ∷ raw verifier
      ∷ put_opaque owner
      ∷ u32 0x10000
      ∷ u32 0
      ∷ u32 0
      ∷ [])
  encode (create_session clientid sequenceid config) = writes (
      u32 (to_u32 OpCode.create_session)
      ∷ u64 clientid
      ∷ u32 sequenceid
      ∷ u32 0
      ∷ encode_channel_attrs config.max_request_size config.max_response_size config.session_slots
      ∷ encode_channel_attrs 8192 8192 1
      ∷ u32 0
      ∷ u32 0
      ∷ [])
  encode (reclaim_complete one_fs) =
      writes (u32 (to_u32 OpCode.reclaim_complete) ∷ flag one_fs ∷ [])

abbrev pub xdr_string_len : List ℕ → ℕ
xdr_string_len value = xdr_opaque_len (length value)

payload_len : NfsOp → ℕ
payload_len put_root_fh = 0
payload_len get_fh = 0
payload_len save_fh = 0
payload_len restore_fh = 0
payload_len (verify size) = set_attrs_len (record { size = some 0; mode = none })
payload_len (put_fh fh) = xdr_opaque_len (length fh)
payload_len (lookup name) = xdr_string_len name
payload_len (link name) = xdr_string_len name
payload_len (remove name) = xdr_string_len name
payload_len (get_attr bitmap) = bitmap_len bitmap
payload_len (open_op seqid clientid owner name file_mode) =
    let create_len = saturating_add 4 (set_attrs_len (record { size = some 0; mode = some 0 })) in
    saturating_encoded_len (
      4 ∷ 4 ∷ 4 ∷ 8 ∷ xdr_opaque_len (length owner) ∷ 4 ∷ create_len ∷ 4 ∷ xdr_string_len name ∷ [])
payload_len (close seqid stateid) = saturating_add 4 stateid_len
payload_len (read stateid offset count) = saturating_encoded_len (stateid_len ∷ 8 ∷ 4 ∷ [])
payload_len (write stateid offset bytes) =
    saturating_encoded_len (stateid_len ∷ 8 ∷ 4 ∷ xdr_opaque_len (length bytes) ∷ [])
payload_len (commit offset count) = saturating_add 8 4
payload_len (rename old_name new_name) =
    saturating_add (xdr_string_len old_name) (xdr_string_len new_name)
payload_len (create_dir name mode) =
    saturating_encoded_len
      (4 ∷ xdr_string_len name ∷ set_attrs_len (record { size = none; mode = some 0 }) ∷ [])
payload_len (read_dir cookie verifier dircount maxcount attrs) =
    saturating_encoded_len (8 ∷ xdr_fixed_opaque_len 8 ∷ 4 ∷ 4 ∷ bitmap_len attrs ∷ [])
payload_len (exchange_id verifier owner) =
    saturating_encoded_len (xdr_fixed_opaque_len 8 ∷ xdr_opaque_len (length owner) ∷ 4 ∷ 4 ∷ 4 ∷ [])
payload_len (create_session clientid sequenceid config) =
    saturating_encoded_len (8 ∷ 4 ∷ 4 ∷ channel_attrs_len ∷ channel_attrs_len ∷ 4 ∷ 4 ∷ [])
payload_len (reclaim_complete one_fs) = 4

unfoldable pub encoded_len : NfsOp → ℕ
unfolding payload_len
encoded_len op = saturating_add 4 (payload_len op)
