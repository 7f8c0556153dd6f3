-- ===== src/Nfs4/Body.antt =====
-- src/nfs4/codec.rs: the result bodies of single operations.
pub mod Attrs
pub mod Readdir
pub mod Setup
pub mod Moves
pub mod Bytes
pub mod Total
use nfs_crust.Prelude.{
  ℕ, zero, suc, ◌+◌, ◌*◌, ◌/◌, bit_and, Bool, true, false, ◌||◌, not, Option, none, some, List, [],
  ◌∷◌, length, ltb, ◌==◌, if◌then◌else◌,
}
use nfs_crust.Prelude.Words.{checked_mul, u64_limit}
use nfs_crust.Result.{Result, ok, err, ok_or}
use nfs_crust.Result.Action.{◌>>=◌, ◌>>◌, pure, fail, lift}
use nfs_crust.Error.{Error}
use nfs_crust.Xdr.ByteBuf.{ByteBuf}
use nfs_crust.Xdr.Decoder.{
  Decoder, remaining, require, read_u32, read_u32_pair, read_u32_and_bytes, read_u32_pair_and_bytes,
  read_bool, read_bool_and_skip, read_bool_and_opaque, read_opaque, skip_bytes,
  skip_bytes_after_require, skip_opaque,
}
use nfs_crust.Nfs4.Types.{FileHandle, StateId}
use nfs_crust.Nfs4.Writer.{stateid_len}

pub data WriteStability : Type 0 where
  unstable data_sync file_sync : WriteStability

pub record ReadData : Type 0 where
  pub eof : Bool
  pub bytes : List ℕ

pub record WriteData : Type 0 where
  pub count : ℕ
  pub committed : WriteStability
  pub verifier : List ℕ

unfoldable pub stability_from_raw : ℕ → Result Error WriteStability
stability_from_raw value =
    if value == 0
    then ok unstable
    else if value == 1
    then ok data_sync
    else if value == 2
    then ok file_sync
    else err Error.protocol

unfoldable pub requires_commit : WriteStability → Bool
requires_commit file_sync = false
requires_commit _ = true

-- Equality of byte arrays.
unfoldable pub same_bytes : List ℕ → List ℕ → Bool
same_bytes [] [] = true
same_bytes (x ∷ xs) (y ∷ ys) = let rest = same_bytes xs ys in if x == y then rest else false
same_bytes _ _ = false

unfoldable pub ensure_write_verifier : List ℕ → List ℕ → Result Error (Unit {0})
ensure_write_verifier expected actual =
    if same_bytes actual expected then ok tt else err Error.connection_lost

-- `bytes > dec.remaining()`, where `bytes` is four times `len`.
unfoldable pub require_bitmap_words : ℕ → Decoder ℕ
require_bitmap_words len = do
  bytes ← lift (ok_or (checked_mul len 4) Error.xdr)
  left ← remaining
  if ltb left bytes then fail Error.xdr else pure bytes

-- WND4_CONTENTION and WND4_RESOURCE
abbrev will_signal : ℕ → Bool
will_signal why = why == 1 || why == 2

module _ ⦃b : ByteBuf⦄ where
  unfoldable pub skip_sequence_data : Decoder (Unit {0})
  skip_sequence_data = skip_bytes (16 + 5 * 4)

  unfoldable pub decode_file_handle : Decoder FileHandle
  decode_file_handle = do
    handle ← read_opaque
    if ltb 128 (length handle) then fail Error.protocol else pure handle

  unfoldable pub decode_read_data : Decoder ReadData
  decode_read_data = do
    (eof, bytes) ← read_bool_and_opaque
    pure (record { eof = eof; bytes = bytes })

  unfoldable pub decode_write_data : Decoder WriteData
  decode_write_data = do
    (count, raw, verifier) ← read_u32_pair_and_bytes 8
    committed ← lift (stability_from_raw raw)
    pure (record { count = count; committed = committed; verifier = verifier })

  unfoldable pub decode_stateid : Decoder StateId
  decode_stateid = do
    (seqid, other) ← read_u32_and_bytes 12
    pure (record { seqid = seqid; other = other })

  unfoldable pub skip_stateid : Decoder (Unit {0})
  skip_stateid = skip_bytes stateid_len

  unfoldable pub skip_change_info : Decoder (Unit {0})
  skip_change_info = do atomic ← read_bool_and_skip (2 * 8); pure tt

  unfoldable pub skip_bitmap_after_len : ℕ → Decoder (Unit {0})
  skip_bitmap_after_len len = do bytes ← require_bitmap_words len; skip_bytes_after_require bytes

  unfoldable pub skip_bitmap : Decoder (Unit {0})
  skip_bitmap = do len ← read_u32; skip_bitmap_after_len len

  unfoldable pub skip_fattr : Decoder (Unit {0})
  skip_fattr = do skip_bitmap; skip_opaque

  unfoldable pub delegation_why : ℕ → Decoder (Unit {0})
  delegation_why why =
      if will_signal why then (do server_will_signal ← read_bool; pure tt) else pure tt

  -- OPEN_DELEGATE_NONE, READ, WRITE and NONE_EXT are 0 to 3.
  unfoldable pub decode_open_delegation : Decoder (Unit {0})
  decode_open_delegation = do
    delegation_type ← read_u32
    if delegation_type == 0
        then pure tt
        else if delegation_type == 3
        then (do why ← read_u32; delegation_why why)
        else if delegation_type == 1 || delegation_type == 2
        then fail Error.unsupported
        else fail Error.protocol

  -- OPEN4_RESULT_CONFIRM is 2.
  unfoldable pub decode_open_stateid : Decoder StateId
  decode_open_stateid = do
    stateid ← decode_stateid
    skip_change_info
    (rflags, attrs_set_len) ← read_u32_pair
    skip_bitmap_after_len attrs_set_len
    decode_open_delegation
    if bit_and rflags 2 == 0 then pure stateid else fail Error.unsupported
