-- ===== src/Nfs4/Ops/Length.antt =====
-- The length that src/nfs4/ops.rs computes for an operation is the length of what it writes.
use nfs_crust.Prelude.{
  ℕ, ◌+◌, ◌*◌, ◌<◌, ◌≡◌, refl, bit_or, none, some, List, [], ◌∷◌, ◌++◌, All, arith, length,
}
use nfs_crust.Prelude.Words.{u32_limit, u64_limit, saturating_add}
use nfs_crust.Result.{ok}
use nfs_crust.Xdr.ByteBuf.{ByteBuf}
use nfs_crust.Xdr.Length.{xdr_padding, xdr_opaque_len, xdr_fixed_opaque_len}
use nfs_crust.Xdr.Length.Laws.{xdr_opaque_len_lem, xdr_padding_aligns}
use nfs_crust.Nfs4.OpCode.{OpCode, to_u32}
use nfs_crust.Nfs4.OpCode.Laws.{to_u32-lt}
use nfs_crust.Nfs4.Types.{StateId, Bitmap}
use nfs_crust.Nfs4.Writer.{
  u32, saturating_sum, saturating_encoded_len, set_attrs_len, bitmap_len, stateid_len,
  channel_attrs_len,
}
use nfs_crust.Nfs4.Writer.Emits.{
  Emits, Emits-all, Emits-nil, ◌▸◌, Emits-u32, Emits-u64, Emits-raw, Emits-flag, Emits-opaque,
  Emits-string, Emits-file_handle, Emits-stateid, Emits-bitmap, Emits-size_attrs,
  Emits-create_attrs, Emits-mode_attrs, Emits-channel_attrs,
}
use nfs_crust.Nfs4.Ops.{NfsOp, encode, encoded_len, unstable4, nf4dir}

-- The ranges of the Rust types: `u32`, `u64`, arrays of 8 and of 12 bytes, and values whose length is
-- a `u32`.
abbrev pub IsText : List ℕ → Type 0
IsText v = length v < u32_limit

abbrev pub IsStateId : StateId → Type 0
IsStateId s = (s.seqid < u32_limit) × (length s.other ≡ 12)

abbrev pub IsBitmap : Bitmap → Type 0
IsBitmap ws = IsText ws × All (λ w. w < u32_limit) ws

abbrev pub InRange : NfsOp → Type 0
InRange NfsOp.put_root_fh = Unit
InRange NfsOp.save_fh = Unit
InRange NfsOp.restore_fh = Unit
InRange NfsOp.get_fh = Unit
InRange (NfsOp.put_fh fh) = IsText fh
InRange (NfsOp.lookup name) = IsText name
InRange (NfsOp.link name) = IsText name
InRange (NfsOp.remove name) = IsText name
InRange (NfsOp.get_attr bitmap) = IsBitmap bitmap
InRange (NfsOp.open_op seqid clientid owner name file_mode) =
    (seqid < u32_limit)
    × (clientid < u64_limit)
    × IsText owner
    × IsText name
    × (file_mode < u32_limit)
InRange (NfsOp.close seqid stateid) = (seqid < u32_limit) × IsStateId stateid
InRange (NfsOp.read stateid offset count) =
    IsStateId stateid × (offset < u64_limit) × (count < u32_limit)
InRange (NfsOp.write stateid offset bytes) = IsStateId stateid × (offset < u64_limit) × IsText bytes
InRange (NfsOp.commit offset count) = (offset < u64_limit) × (count < u32_limit)
InRange (NfsOp.verify size) = size < u64_limit
InRange (NfsOp.rename old_name new_name) = IsText old_name × IsText new_name
InRange (NfsOp.create_dir name mode) = IsText name × (mode < u32_limit)
InRange (NfsOp.read_dir cookie verifier dircount maxcount attrs) =
    (cookie < u64_limit)
    × (length verifier ≡ 8)
    × (dircount < u32_limit)
    × (maxcount < u32_limit)
    × IsBitmap attrs
InRange (NfsOp.exchange_id verifier owner) = (length verifier ≡ 8) × IsText owner
InRange (NfsOp.create_session clientid sequenceid config) =
    (clientid < u64_limit)
    × (sequenceid < u32_limit)
    × (config.max_request_size < u32_limit)
    × (config.max_response_size < u32_limit)
    × (config.session_slots < u32_limit)
InRange (NfsOp.reclaim_complete one_fs) = Unit

sum : List ℕ → ℕ
sum [] = 0
sum (n ∷ ns) = n + sum ns

saturating_sum_lem :
    (parts : List ℕ) (total : ℕ)
    → total + sum parts < u64_limit
    → saturating_sum total parts ≡ total + sum parts
unfolding sum
saturating_sum_lem [] total h = omega arith
saturating_sum_lem (n ∷ ns) total h = ground (arith, saturating_sum_lem ns (saturating_add total n))

saturating_encoded_len_lem :
    (parts : List ℕ) → sum parts < u64_limit → saturating_encoded_len parts ≡ sum parts
unfolding saturating_encoded_len
saturating_encoded_len_lem parts h = omega (arith, saturating_sum_lem parts 0)

opaque_bound : (v : List ℕ) → IsText v → xdr_opaque_len (length v) < u32_limit + 8
opaque_bound v h = omega (arith, xdr_opaque_len_lem (length v) h, xdr_padding_aligns (length v))

bitmap_bound : (ws : Bitmap) → IsText ws → bitmap_len ws < u32_limit * 5
unfolding bitmap_len
bitmap_bound ws h = omega (arith, h)

fixed_lengths :
    (xdr_fixed_opaque_len 8 ≡ 8)
    × (stateid_len ≡ 16)
    × (channel_attrs_len ≡ 28)
    × (set_attrs_len (record { size = some 0; mode = none }) ≡ 20)
    × (set_attrs_len (record { size = some 0; mode = some 0 }) ≡ 28)
    × (set_attrs_len (record { size = none; mode = some 0 }) ≡ 20)
unfolding xdr_fixed_opaque_len xdr_opaque_len xdr_padding stateid_len channel_attrs_len
    set_attrs_len
fixed_lengths = (refl, refl, refl, refl, refl, refl)

module _ ⦃b : ByteBuf⦄ where
  code : (op : OpCode) → Emits 4 (u32 (to_u32 op))
  code op = Emits-u32 (to_u32 op) (to_u32-lt op)

  pub encode-encoded_len : (op : NfsOp) → InRange op → Emits (encoded_len op) (encode op)
  unfolding encode encoded_len sum
  encode-encoded_len NfsOp.put_root_fh h = code OpCode.put_root_fh
  encode-encoded_len NfsOp.save_fh h = code OpCode.save_fh
  encode-encoded_len NfsOp.restore_fh h = code OpCode.restore_fh
  encode-encoded_len NfsOp.get_fh h = code OpCode.get_fh
  encode-encoded_len (NfsOp.put_fh fh) h =
      Emits-all (code OpCode.put_fh ▸ Emits-file_handle fh h ▸ Emits-nil)
        (omega (arith, opaque_bound fh h))
  encode-encoded_len (NfsOp.lookup name) h =
      Emits-all (code OpCode.lookup ▸ Emits-string name h ▸ Emits-nil)
        (omega (arith, opaque_bound name h))
  encode-encoded_len (NfsOp.link name) h =
      Emits-all (code OpCode.link ▸ Emits-string name h ▸ Emits-nil)
        (omega (arith, opaque_bound name h))
  encode-encoded_len (NfsOp.remove name) h =
      Emits-all (code OpCode.remove ▸ Emits-string name h ▸ Emits-nil)
        (omega (arith, opaque_bound name h))
  encode-encoded_len (NfsOp.get_attr bitmap) h =
      Emits-all (code OpCode.get_attr ▸ Emits-bitmap bitmap h.0 h.1 ▸ Emits-nil)
        (unfold bitmap_len in omega (arith, h.0))
  encode-encoded_len (NfsOp.open_op seqid clientid owner name file_mode) h =
      Emits-all
        (code OpCode.open_op
          ▸ Emits-u32 seqid h.0
          ▸ Emits-u32 (bit_or 0x2 0x400) (omega arith)
          ▸ Emits-u32 0 (omega arith)
          ▸ Emits-u64 clientid h.1
          ▸ Emits-opaque owner h.2
          ▸ Emits-u32 1 (omega arith)
          ▸ Emits-u32 1 (omega arith)
          ▸ Emits-create_attrs file_mode h.4
          ▸ Emits-u32 0 (omega arith)
          ▸ Emits-string name h.3
          ▸ Emits-nil)
        (omega (
          arith,
          fixed_lengths,
          opaque_bound owner h.2,
          opaque_bound name h.3,
          saturating_encoded_len_lem,
        ))
  encode-encoded_len (NfsOp.close seqid stateid) h =
      Emits-all
        (code OpCode.close ▸ Emits-u32 seqid h.0 ▸ Emits-stateid stateid h.1.0 h.1.1 ▸ Emits-nil)
        (omega (arith, fixed_lengths))
  encode-encoded_len (NfsOp.read stateid offset count) h =
      Emits-all
        (code OpCode.read
          ▸ Emits-stateid stateid h.0.0 h.0.1
          ▸ Emits-u64 offset h.1
          ▸ Emits-u32 count h.2
          ▸ Emits-nil)
        (omega (arith, fixed_lengths, saturating_encoded_len_lem))
  encode-encoded_len (NfsOp.write stateid offset bytes) h =
      Emits-all
        (code OpCode.write
          ▸ Emits-stateid stateid h.0.0 h.0.1
          ▸ Emits-u64 offset h.1
          ▸ Emits-u32 unstable4 (omega arith)
          ▸ Emits-opaque bytes h.2
          ▸ Emits-nil)
        (omega (arith, fixed_lengths, opaque_bound bytes h.2, saturating_encoded_len_lem))
  encode-encoded_len (NfsOp.commit offset count) h =
      Emits-all (code OpCode.commit ▸ Emits-u64 offset h.0 ▸ Emits-u32 count h.1 ▸ Emits-nil) refl
  encode-encoded_len (NfsOp.verify size) h =
      Emits-all (code OpCode.verify ▸ Emits-size_attrs size h ▸ Emits-nil)
        (omega (arith, fixed_lengths))
  encode-encoded_len (NfsOp.rename old_name new_name) h =
      Emits-all
        (code OpCode.rename ▸ Emits-string old_name h.0 ▸ Emits-string new_name h.1 ▸ Emits-nil)
        (omega (arith, opaque_bound old_name h.0, opaque_bound new_name h.1))
  encode-encoded_len (NfsOp.create_dir name mode) h =
      Emits-all
        (code OpCode.create
          ▸ Emits-u32 nf4dir (omega arith)
          ▸ Emits-string name h.0
          ▸ Emits-mode_attrs mode h.1
          ▸ Emits-nil)
        (omega (arith, fixed_lengths, opaque_bound name h.0, saturating_encoded_len_lem))
  encode-encoded_len (NfsOp.read_dir cookie verifier dircount maxcount attrs) h =
      Emits-all
        (code OpCode.read_dir
          ▸ Emits-u64 cookie h.0
          ▸ Emits-raw verifier
          ▸ Emits-u32 dircount h.2
          ▸ Emits-u32 maxcount h.3
          ▸ Emits-bitmap attrs h.4.0 h.4.1
          ▸ Emits-nil)
        (omega (arith, fixed_lengths, bitmap_bound attrs h.4.0, saturating_encoded_len_lem))
  encode-encoded_len (NfsOp.exchange_id verifier owner) h =
      Emits-all
        (code OpCode.exchange_id
          ▸ Emits-raw verifier
          ▸ Emits-opaque owner h.1
          ▸ Emits-u32 0x10000 (omega arith)
          ▸ Emits-u32 0 (omega arith)
          ▸ Emits-u32 0 (omega arith)
          ▸ Emits-nil)
        (omega (arith, fixed_lengths, opaque_bound owner h.1, saturating_encoded_len_lem))
  encode-encoded_len (NfsOp.create_session clientid sequenceid config) h =
      Emits-all
        (code OpCode.create_session
          ▸ Emits-u64 clientid h.0
          ▸ Emits-u32 sequenceid h.1
          ▸ Emits-u32 0 (omega arith)
          ▸ Emits-channel_attrs _ _ _ h.2 h.3 h.4
          ▸ Emits-channel_attrs 8192 8192 1 (omega arith) (omega arith) (omega arith)
          ▸ Emits-u32 0 (omega arith)
          ▸ Emits-u32 0 (omega arith)
          ▸ Emits-nil)
        (omega (arith, fixed_lengths, saturating_encoded_len_lem))
  encode-encoded_len (NfsOp.reclaim_complete one_fs) h =
      Emits-all (code OpCode.reclaim_complete ▸ Emits-flag one_fs ▸ Emits-nil) refl

  -- Every operation whose fields are in the ranges of their types is appended to what the encoder
  -- holds without a panic, and the length computed for it beforehand is the length of what is written.
  pub length-encode :
      (op : NfsOp) (enc : List ℕ)
      → InRange op
      → (bytes : List ℕ) × (encode op enc ≡ ok (enc ++ bytes)) × (length bytes ≡ encoded_len op)
  length-encode op enc h = let e = encode-encoded_len op h in (e.bytes, e.appends enc, e.size)
