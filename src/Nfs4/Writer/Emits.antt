-- ===== src/Nfs4/Writer/Emits.antt =====
-- Writers of a known length: `w` appends the same `n` bytes to every encoder, and never panics.
use nfs_crust.Prelude.{
  ℕ, ◌+◌, ◌*◌, ◌%◌, All, ◌<◌, ◌≡◌, refl, sym, ap, ◌∙◌, Bool, true, false, none, some, List, [], ◌∷◌,
  ◌++◌, append-nil, append_assoc, arith, length, length-append,
}
use nfs_crust.Prelude.Words.{u32_limit, u64_limit, be, length-be}
use nfs_crust.Result.{ok}
use nfs_crust.Xdr.ByteBuf.{ByteBuf}
use nfs_crust.Xdr.Length.{xdr_padding, xdr_opaque_len, xdr_fixed_opaque_len}
use nfs_crust.Xdr.Length.Laws.{xdr_opaque_len_lem}
use nfs_crust.Xdr.Encoder.{XdrEncoder, put_bool, put_opaque, put_string}
use nfs_crust.Xdr.Encoder.Format.{
  opaque_format, length-opaque_format, put_u32-format, put_u64-format, put_bytes-format,
  put_opaque-format,
}
use nfs_crust.Nfs4.Types.{FileHandle, StateId, Bitmap}
use nfs_crust.Nfs4.Writer.{
  Writer, writes, u32, u64, raw, flag, encode_file_handle, encode_stateid, u32_each, encode_bitmap,
  encode_set_attrs, encode_channel_attrs, set_attrs_len, bitmap_len, stateid_len, channel_attrs_len,
}

pub record Emits (n : ℕ) (w : Writer) : Type 0 where
  pub bytes : List ℕ
  pub size : length bytes ≡ n
  pub appends : (enc : XdrEncoder) → w enc ≡ ok (enc ++ bytes)

pub Emits-size : {m n : ℕ} {w : Writer} → Emits m w → m ≡ n → Emits n w
Emits-size e p = record { bytes = e.bytes; size = e.size ∙ p; appends = e.appends }

-- The same of a list of writes.
pub record EmitsAll (n : ℕ) (ws : List Writer) : Type 0 where
  pub emits : Emits n (writes ws)

pub Emits-idle : Emits 0 (λ enc. ok enc)
Emits-idle = record { bytes = []; size = refl; appends = λ enc. ap ok (sym (append-nil enc)) }

pub Emits-nil : EmitsAll 0 []
unfolding writes
Emits-nil = record { emits = Emits-idle }

infixr 5 ◌▸◌
pub ◌▸◌ :
    {m n : ℕ} {w : Writer} {ws : List Writer}
    → Emits m w
    → EmitsAll n ws
    → EmitsAll (m + n) (w ∷ ws)
unfolding writes
e ▸ g =
    let f = g.emits in
    record {
      emits = record {
        bytes = e.bytes ++ f.bytes;
        size = omega (arith, length-append e.bytes f.bytes, e.size, f.size);
        appends = λ enc.
            rw (e.appends enc, f.appends (enc ++ e.bytes))
              (ap ok (append_assoc enc e.bytes f.bytes));
      };
    }

pub Emits-all : {m n : ℕ} {ws : List Writer} → EmitsAll m ws → m ≡ n → Emits n (writes ws)
Emits-all e p = Emits-size e.emits p

module _ ⦃b : ByteBuf⦄ where
  pub Emits-u32 : (v : ℕ) → v < u32_limit → Emits 4 (u32 v)
  Emits-u32 v h = record {
    bytes = be 4 v;
    size = length-be 4 v;
    appends = λ enc. ap ok (put_u32-format v enc h);
  }

  pub Emits-u64 : (v : ℕ) → v < u64_limit → Emits 8 (u64 v)
  Emits-u64 v h = record {
    bytes = be 8 v;
    size = length-be 8 v;
    appends = λ enc. ap ok (put_u64-format v enc h);
  }

  pub Emits-raw : (v : List ℕ) → Emits (length v) (raw v)
  Emits-raw v = record { bytes = v; size = refl; appends = λ enc. ap ok (put_bytes-format v enc) }

  pub Emits-flag : (v : Bool) → Emits 4 (flag v)
  unfolding put_bool
  Emits-flag true = Emits-u32 1 (omega arith)
  Emits-flag false = Emits-u32 0 (omega arith)

  pub Emits-opaque :
      (v : List ℕ) → length v < u32_limit → Emits (xdr_opaque_len (length v)) (put_opaque v)
  Emits-opaque v h = record {
    bytes = opaque_format v;
    size = length-opaque_format v ∙ sym (xdr_opaque_len_lem (length v) h);
    appends = λ enc. put_opaque-format v enc h;
  }

  pub Emits-string :
      (v : List ℕ) → length v < u32_limit → Emits (xdr_opaque_len (length v)) (put_string v)
  unfolding put_string
  Emits-string v h = Emits-opaque v h

  pub Emits-file_handle :
      (fh : FileHandle)
      → length fh < u32_limit
      → Emits (xdr_opaque_len (length fh)) (encode_file_handle fh)
  unfolding encode_file_handle
  Emits-file_handle fh h = Emits-opaque fh h

  pub Emits-stateid :
      (s : StateId)
      → s.seqid < u32_limit
      → length s.other ≡ 12
      → Emits stateid_len (encode_stateid s)
  unfolding encode_stateid stateid_len
  Emits-stateid s h k =
      Emits-all (Emits-u32 s.seqid h ▸ Emits-raw s.other ▸ Emits-nil) (omega (arith, twelve))
    where
      twelve : xdr_fixed_opaque_len 12 ≡ 12
      twelve = unfold xdr_fixed_opaque_len xdr_padding in refl

  Emits-u32_each :
      (ws : List ℕ) → All (λ w. w < u32_limit) ws → EmitsAll (length ws * 4) (u32_each ws)
  Emits-u32_each [] h = record { emits = Emits-all Emits-nil (omega arith) }
  Emits-u32_each (w ∷ ws) h = record {
    emits = Emits-all (Emits-u32 w h.0 ▸ Emits-u32_each ws h.1) (omega arith);
  }

  pub Emits-bitmap :
      (ws : Bitmap)
      → length ws < u32_limit
      → All (λ w. w < u32_limit) ws
      → Emits (bitmap_len ws) (encode_bitmap ws)
  unfolding encode_bitmap bitmap_len
  Emits-bitmap ws n h =
      Emits-all (Emits-u32 (length ws % u32_limit) (omega arith) ▸ Emits-u32_each ws h)
        (omega arith)

  -- The three shapes of `SetAttrs` that the client sends.
  pub Emits-size_attrs :
      (size : ℕ)
      → size < u64_limit
      → Emits
          (set_attrs_len (record { size = some 0; mode = none }))
          (encode_set_attrs (record { size = some size; mode = none }))
  unfolding encode_set_attrs set_attrs_len xdr_opaque_len xdr_fixed_opaque_len xdr_padding
  Emits-size_attrs size h =
      Emits-all
        (Emits-u32 1 (omega arith)
          ▸ (Emits-u32_each (0x10 ∷ []) (omega arith)).emits
          ▸ Emits-u32 8 (omega arith)
          ▸ Emits-u64 size h
          ▸ Emits-idle
          ▸ Emits-nil)
        refl

  pub Emits-create_attrs :
      (mode : ℕ)
      → mode < u32_limit
      → Emits
          (set_attrs_len (record { size = some 0; mode = some 0 }))
          (encode_set_attrs (record { size = some 0; mode = some mode }))
  unfolding encode_set_attrs set_attrs_len xdr_opaque_len xdr_fixed_opaque_len xdr_padding
  Emits-create_attrs mode h =
      Emits-all
        (Emits-u32 2 (omega arith)
          ▸ (Emits-u32_each (0x10 ∷ 2 ∷ []) (omega arith)).emits
          ▸ Emits-u32 12 (omega arith)
          ▸ Emits-u64 0 (omega arith)
          ▸ Emits-u32 mode h
          ▸ Emits-nil)
        refl

  pub Emits-mode_attrs :
      (mode : ℕ)
      → mode < u32_limit
      → Emits
          (set_attrs_len (record { size = none; mode = some 0 }))
          (encode_set_attrs (record { size = none; mode = some mode }))
  unfolding encode_set_attrs set_attrs_len xdr_opaque_len xdr_fixed_opaque_len xdr_padding
  Emits-mode_attrs mode h =
      Emits-all
        (Emits-u32 2 (omega arith)
          ▸ (Emits-u32_each (0 ∷ 2 ∷ []) (omega arith)).emits
          ▸ Emits-u32 4 (omega arith)
          ▸ Emits-idle
          ▸ Emits-u32 mode h
          ▸ Emits-nil)
        refl

  pub Emits-channel_attrs :
      (request response slots : ℕ)
      → request < u32_limit
      → response < u32_limit
      → slots < u32_limit
      → Emits channel_attrs_len (encode_channel_attrs request response slots)
  unfolding encode_channel_attrs channel_attrs_len
  Emits-channel_attrs request response slots p q r =
      Emits-all
        (Emits-u32 0 (omega arith)
          ▸ Emits-u32 request p
          ▸ Emits-u32 response q
          ▸ Emits-u32 response q
          ▸ Emits-u32 64 (omega arith)
          ▸ Emits-u32 slots r
          ▸ Emits-u32 0 (omega arith)
          ▸ Emits-nil)
        refl
