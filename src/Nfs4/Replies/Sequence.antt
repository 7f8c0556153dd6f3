-- ===== src/Nfs4/Replies/Sequence.antt =====
-- src/nfs4/codec.rs: the result of SEQUENCE, checked against the request, and its status flags.
pub mod Moves
use nfs_crust.Prelude.{
  ℕ, ◌-◌, bit_and, bit_or, Bool, true, false, ◌&&◌, not, List, ◌==◌, if◌then◌else◌,
}
use nfs_crust.Prelude.Words.{u32_limit}
use nfs_crust.Result.{Result, ok, err, panic}
use nfs_crust.Result.Action.{◌>>=◌, ◌>>◌, pure, fail, lift}
use nfs_crust.Error.{Error}
use nfs_crust.Error.Classify.{nfs_error}
use nfs_crust.Xdr.ByteBuf.{ByteBuf}
use nfs_crust.Xdr.Decoder.{
  Decoder, read_u32, read_u32_pair, read_bytes, read_u32_skip_opaque_and_read_u32,
}
use nfs_crust.Nfs4.OpCode.{OpCode, to_u32, from_u32}
use nfs_crust.Nfs4.Status.{NfsStatus, is_ok}
use nfs_crust.Nfs4.Body.{same_bytes}

pub record SequenceResult : Type 0 where
  pub highest_slotid : ℕ
  pub target_highest_slotid : ℕ
  pub status_flags : ℕ

-- The flags of a reply, RFC 5661 section 18.46.
abbrev pub lease_moved : ℕ
lease_moved = 0x80

abbrev pub restart_reclaim_needed : ℕ
restart_reclaim_needed = 0x100

abbrev pub backchannel_fault : ℕ
backchannel_fault = 0x400

abbrev pub known_flags : ℕ
known_flags = 0x1fff

abbrev pub state_lost : ℕ
state_lost = 0x78

-- `!SEQ4_STATUS_KNOWN`
abbrev pub unknown_flags : ℕ
unknown_flags = u32_limit - 1 - known_flags

abbrev pub has_flag : ℕ → ℕ → Bool
has_flag flags flag = not (bit_and flags flag == 0)

unfoldable pub validate_sequence_status_flags : ℕ → Bool → Result Error (Unit {0})
validate_sequence_status_flags status_flags reclaim_complete =
    if has_flag status_flags unknown_flags
    then err Error.protocol
    else if has_flag status_flags state_lost
    then err Error.connection_lost
    else if reclaim_complete && has_flag status_flags restart_reclaim_needed
    then err Error.connection_lost
    else if has_flag status_flags backchannel_fault
    then err Error.connection_lost
    else if has_flag status_flags lease_moved
    then err Error.unsupported
    else ok tt

-- Another operation than SEQUENCE, and a number that is none.
abbrev pub began_with : Result Error OpCode → Result Error (Unit {0})
began_with (ok returned) = err Error.protocol
began_with (err e) = err e
began_with panic = panic

abbrev pub same_or_protocol : Bool → Decoder (Unit {0})
same_or_protocol same = if same then pure tt else fail Error.protocol

unfoldable pub empty_reply : NfsStatus → Decoder SequenceResult
empty_reply status =
    if is_ok status then fail Error.protocol else fail (nfs_error status OpCode.sequence)

module _ ⦃b : ByteBuf⦄ where
  unfoldable pub sequence_header : Decoder (Unit {0})
  sequence_header = do
    (op, status) ← read_u32_pair
    if op == to_u32 OpCode.sequence then pure tt else lift (began_with (from_u32 op))
    if is_ok status then pure tt else fail (nfs_error status OpCode.sequence)

  unfoldable pub sequence_body : List ℕ → ℕ → ℕ → Decoder SequenceResult
  sequence_body expected_sessionid expected_sequenceid expected_slotid = do
    sessionid ← read_bytes 16
    sequenceid ← read_u32
    slotid ← read_u32
    highest_slotid ← read_u32
    target_highest_slotid ← read_u32
    status_flags ← read_u32
    same_or_protocol (same_bytes sessionid expected_sessionid)
    same_or_protocol (sequenceid == expected_sequenceid)
    same_or_protocol (slotid == expected_slotid)
    pure (record {
      highest_slotid = highest_slotid;
      target_highest_slotid = target_highest_slotid;
      status_flags = status_flags;
    })

  unfoldable pub decode_sequence_result : List ℕ → ℕ → ℕ → Decoder SequenceResult
  decode_sequence_result expected_sessionid expected_sequenceid expected_slotid = do
    (compound_status, reply_count) ← read_u32_skip_opaque_and_read_u32
    if reply_count == 0 then empty_reply compound_status else (do
      sequence_header
      sequence_body expected_sessionid expected_sequenceid expected_slotid)
