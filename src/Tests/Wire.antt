-- ===== src/Tests/Wire.antt =====
-- src/xdr.rs, src/rpc.rs and the compounds of src/nfs4/codec.rs on concrete bytes.
use nfs_crust.Prelude.{
  ℕ, ◌+◌, ◌-◌, ◌%◌, ◌≤◌, ◌<◌, ◌≡◌, ◌↔◌, refl, true, some, List, [], ◌∷◌, ◌++◌, All, arith, length,
}
use nfs_crust.Prelude.Words.{u32_limit, u64_limit}
use nfs_crust.Result.{ok}
use nfs_crust.Result.Action.{and_then, pure}
use nfs_crust.Rpc.Payload.{RpcPayload, from_segments, concat, from_segments_lem}
use nfs_crust.Xdr.ListBuf.{list_buf}
use nfs_crust.Xdr.Length.{xdr_padding, xdr_opaque_len, xdr_fixed_opaque_len}
use nfs_crust.Xdr.Length.Laws.{xdr_padding_aligns}
use nfs_crust.Xdr.Encoder.{put_opaque}
use nfs_crust.Xdr.Decoder.{read_opaque, skip_opaque}
use nfs_crust.Xdr.RoundTrip.{read_opaque-put_opaque, skip_opaque-read_opaque}
use nfs_crust.Nfs4.Types.{anonymous_stateid}
use nfs_crust.Nfs4.Writer.{saturating_encoded_len, stateid_len}
use nfs_crust.Nfs4.Ops.{NfsOp, encode, encoded_len}
use nfs_crust.Nfs4.Ops.Length.{InRange, length-encode}
use nfs_crust.Nfs4.Compound.{
  SequenceArgs, compound_encoded_len, sequence_op_encoded_len, compound_with_sequence_encoded_len,
  validate_compound_request_limits, encode_compound_inner, encode_compound_with_sequence,
}
use nfs_crust.Nfs4.Compound.Segments.{encode_compound_with_sequence-eq}
use nfs_crust.Nfs4.Compound.Limits.{validate_compound_request_limits_iff}

xdr_padding_aligns_example : ((5 + xdr_padding 5) % 4 ≡ 0) × (xdr_padding 5 < 4)
xdr_padding_aligns_example = xdr_padding_aligns 5

read_opaque-put_opaque_example :
    (enc : List ℕ) × (put_opaque (1 ∷ 2 ∷ 3 ∷ []) [] ≡ ok enc)
    × (read_opaque (enc ++ (9 ∷ [])) ≡ ok (1 ∷ 2 ∷ 3 ∷ [], 9 ∷ []))
read_opaque-put_opaque_example = read_opaque-put_opaque (1 ∷ 2 ∷ 3 ∷ []) (9 ∷ []) (omega arith)

-- A value of one byte, with its padding, and a byte after it.
abbrev one_byte : List ℕ
one_byte = 0 ∷ 0 ∷ 0 ∷ 1 ∷ 7 ∷ 0 ∷ 0 ∷ 0 ∷ 9 ∷ []

skip_opaque-read_opaque_example :
    skip_opaque one_byte ≡ and_then (read_opaque one_byte) (λ _. pure tt)
skip_opaque-read_opaque_example = skip_opaque-read_opaque one_byte

from_segments_lem_example :
    (concat (from_segments ((1 ∷ []) ∷ [] ∷ (2 ∷ 3 ∷ []) ∷ [])).segments
      ≡ concat ((1 ∷ []) ∷ [] ∷ (2 ∷ 3 ∷ []) ∷ []))
    × ((from_segments ((1 ∷ []) ∷ [] ∷ (2 ∷ 3 ∷ []) ∷ [])).len
        ≡ length (concat ((1 ∷ []) ∷ [] ∷ (2 ∷ 3 ∷ []) ∷ [])))
from_segments_lem_example = from_segments_lem ((1 ∷ []) ∷ [] ∷ (2 ∷ 3 ∷ []) ∷ []) (omega arith)

abbrev two_writes : List NfsOp
two_writes =
    NfsOp.put_fh (5 ∷ 6 ∷ [])
    ∷ NfsOp.write anonymous_stateid 0 (1 ∷ 2 ∷ 3 ∷ [])
    ∷ NfsOp.write anonymous_stateid 3 (4 ∷ [])
    ∷ NfsOp.commit 0 4
    ∷ []

abbrev slot_zero : SequenceArgs
slot_zero = record {
  sessionid = 0 ∷ 0 ∷ 0 ∷ 0 ∷ 0 ∷ 0 ∷ 0 ∷ 0 ∷ 0 ∷ 0 ∷ 0 ∷ 0 ∷ 0 ∷ 0 ∷ 0 ∷ 1 ∷ [];
  sequenceid = 1;
  slotid = 0;
  highest_slotid = 63;
  cachethis = true;
}

length-encode_example :
    (bytes : List ℕ) × (encode (NfsOp.write anonymous_stateid 8 (1 ∷ 2 ∷ [])) (9 ∷ [])
      ≡ ok ((9 ∷ []) ++ bytes))
    × (length bytes ≡ encoded_len (NfsOp.write anonymous_stateid 8 (1 ∷ 2 ∷ [])))
length-encode_example =
    length-encode (NfsOp.write anonymous_stateid 8 (1 ∷ 2 ∷ [])) (9 ∷ [])
      ((omega arith, refl), omega arith, omega arith)

two_writes-InRange : All InRange two_writes
two_writes-InRange =
    let id : (0 < u32_limit) × (length anonymous_stateid.other ≡ 12) = (omega arith, refl) in
    (
      omega arith,
      (
        (id, omega arith, omega arith),
        ((id, omega arith, omega arith), ((omega arith, omega arith), tt)),
      ),
    )

two_writes_length : compound_with_sequence_encoded_len (112 ∷ []) two_writes ≡ 160
unfolding compound_with_sequence_encoded_len compound_encoded_len sequence_op_encoded_len
    saturating_encoded_len encoded_len xdr_opaque_len xdr_fixed_opaque_len xdr_padding stateid_len
two_writes_length = refl

two_writes_fit : compound_with_sequence_encoded_len (112 ∷ []) two_writes < u64_limit - 1
two_writes_fit = omega (arith, two_writes_length)

encode_compound_with_sequence-eq_example :
    (bytes : List ℕ) × (payload : RpcPayload) × (encode_compound_inner
        (112 ∷ [])
        (some slot_zero)
        two_writes
      ≡ ok bytes)
    × (encode_compound_with_sequence (112 ∷ []) slot_zero two_writes ≡ ok payload)
    × (concat payload.segments ≡ bytes)
    × (payload.len ≡ length bytes)
    × (length bytes ≡ compound_with_sequence_encoded_len (112 ∷ []) two_writes)
encode_compound_with_sequence-eq_example =
    encode_compound_with_sequence-eq (112 ∷ []) slot_zero two_writes (omega arith)
      (refl, omega arith, omega arith, omega arith) two_writes-InRange two_writes_fit

validate_compound_request_limits_iff_example :
    (validate_compound_request_limits two_writes 5 1024 200 ≡ ok tt)
    ↔ ((length two_writes + 1 ≤ 5) × (200 ≤ 1024))
validate_compound_request_limits_iff_example =
    validate_compound_request_limits_iff two_writes 5 1024 200 (omega arith)
