-- ===== src/Nfs4/Compound.antt =====
-- src/nfs4/codec.rs: the encoding of a compound, whole or in segments around the data of each WRITE.
pub mod Segments
pub mod Limits
use nfs_crust.Prelude.{
  ℕ, zero, suc, ◌+◌, ◌-◌, ◌%◌, Bool, true, false, Option, none, some, List, [], ◌∷◌, ◌++◌, length,
  replicate, ltb, if◌then◌else◌,
}
use nfs_crust.Prelude.Words.{u32_limit, saturating_add}
use nfs_crust.Result.{Result, ok, err}
use nfs_crust.Result.Try.{◌>>=◌}
use nfs_crust.Error.{Error}
use nfs_crust.Xdr.ByteBuf.{ByteBuf}
use nfs_crust.Xdr.Length.{xdr_padding, xdr_fixed_opaque_len}
use nfs_crust.Xdr.Encoder.{XdrEncoder, put_string}
use nfs_crust.Rpc.Payload.{RpcPayload, from_segments}
use nfs_crust.Nfs4.Types.{StateId}
use nfs_crust.Nfs4.OpCode.{OpCode, to_u32}
use nfs_crust.Nfs4.Writer.{
  Writer, writes, u32, u64, raw, flag, encode_stateid, saturating_encoded_len,
}
use nfs_crust.Nfs4.Ops.{NfsOp, encode, encoded_len, xdr_string_len, unstable4}

pub record SequenceArgs : Type 0 where
  pub sessionid : List ℕ
  pub sequenceid : ℕ
  pub slotid : ℕ
  pub highest_slotid : ℕ
  pub cachethis : Bool

-- The total starts from the tag and the two counts, and takes the operations in order.
abbrev pub add_op_lens : ℕ → List NfsOp → ℕ
add_op_lens total [] = total
add_op_lens total (op ∷ ops) = add_op_lens (saturating_add total (encoded_len op)) ops

unfoldable pub compound_encoded_len : List ℕ → List NfsOp → ℕ
compound_encoded_len tag ops =
    add_op_lens (saturating_encoded_len (xdr_string_len tag ∷ 4 ∷ 4 ∷ [])) ops

unfoldable pub sequence_op_encoded_len : ℕ
sequence_op_encoded_len = saturating_encoded_len (4 ∷ xdr_fixed_opaque_len 16 ∷ 4 ∷ 4 ∷ 4 ∷ 4 ∷ [])

unfoldable pub compound_with_sequence_encoded_len : List ℕ → List NfsOp → ℕ
compound_with_sequence_encoded_len tag ops =
    saturating_add (compound_encoded_len tag ops) sequence_op_encoded_len

-- The two guards, in order.
unfoldable pub validate_compound_request_limits : List NfsOp → ℕ → ℕ → ℕ → Result Error (Unit {0})
validate_compound_request_limits ops max_compound_ops max_request_size encoded_call_len =
    if ltb max_compound_ops (saturating_add (length ops) 1)
    then err Error.protocol
    else if ltb max_request_size encoded_call_len
    then err Error.protocol
    else ok tt

-- `if let NfsOp::Write { .. } = op`
unfoldable pub as_write : NfsOp → Option (StateId × ℕ × List ℕ)
as_write (NfsOp.write stateid offset bytes) = some (stateid, offset, bytes)
as_write _ = none

module _ ⦃b : ByteBuf⦄ where
  unfoldable pub encode_sequence_op : SequenceArgs → Writer
  encode_sequence_op sequence = writes (
      u32 (to_u32 OpCode.sequence)
      ∷ raw sequence.sessionid
      ∷ u32 sequence.sequenceid
      ∷ u32 sequence.slotid
      ∷ u32 sequence.highest_slotid
      ∷ flag sequence.cachethis
      ∷ [])

  abbrev pub encode_each : List NfsOp → List Writer
  encode_each [] = []
  encode_each (op ∷ ops) = encode op ∷ encode_each ops

  abbrev pub encode_sequence_if : Option SequenceArgs → List Writer
  encode_sequence_if none = []
  encode_sequence_if (some sequence) = encode_sequence_op sequence ∷ []

  abbrev op_count : Option SequenceArgs → List NfsOp → ℕ
  op_count none ops = length ops
  op_count (some sequence) ops = saturating_add (length ops) 1

  unfoldable pub encode_compound_inner :
      List ℕ → Option SequenceArgs → List NfsOp → Result Error (List ℕ)
  encode_compound_inner tag sequence ops =
      writes
        (put_string tag
          ∷ u32 1
          ∷ u32 (op_count sequence ops % u32_limit)
          ∷ (encode_sequence_if sequence ++ encode_each ops))
        []

  unfoldable pub encode_compound : List ℕ → List NfsOp → Result Error (List ℕ)
  encode_compound tag ops = encode_compound_inner tag none ops

  unfoldable pub encode_write_head : StateId → ℕ → List ℕ → Writer
  encode_write_head stateid offset bytes = writes (
      u32 (to_u32 OpCode.write)
      ∷ encode_stateid stateid
      ∷ u64 offset
      ∷ u32 unstable4
      ∷ u32 (length bytes % u32_limit)
      ∷ [])

  -- The loop over the operations: the encoder at hand, and the segments before it. After the data of
  -- a WRITE a new encoder begins with the padding of the data.
  unfoldable pub encode_segments :
      List NfsOp → XdrEncoder → List (List ℕ) → Result Error (List (List ℕ))
  encode_segments [] enc segments = ok (segments ++ (enc ∷ []))
  encode_segments (op ∷ ops) enc segments = elim (as_write op) [
    | some (stateid, offset, bytes) ↦ do
      head ← encode_write_head stateid offset bytes enc
      padding ← raw (replicate (xdr_padding (length bytes)) 0) []
      encode_segments ops padding (segments ++ (head ∷ bytes ∷ []))
    | none ↦ do enc' ← encode op enc; encode_segments ops enc' segments
  ]

  unfoldable pub encode_compound_with_sequence :
      List ℕ → SequenceArgs → List NfsOp → Result Error RpcPayload
  encode_compound_with_sequence tag sequence ops = do
    enc ←
        writes
          (put_string tag
            ∷ u32 1
            ∷ u32 (saturating_add (length ops) 1 % u32_limit)
            ∷ encode_sequence_op sequence
            ∷ [])
          []
    segments ← encode_segments ops enc []
    ok (from_segments segments)
