-- ===== src/Xdr/Encoder.antt =====
-- src/xdr.rs: `XdrEncoder`.
pub mod Format
use nfs_crust.Prelude.{ℕ, zero, Bool, true, false, List, [], ◌∷◌, length, take, ◌==◌, if◌then◌else◌}
use nfs_crust.Result.{Result, ok}
use nfs_crust.Result.Try.{◌>>=◌}
use nfs_crust.Error.{Error}
use nfs_crust.Xdr.ByteBuf.{ByteBuf}
use nfs_crust.Xdr.Length.{xdr_padding, xdr_length_word}

-- The bytes written so far.
abbrev pub XdrEncoder : Type 0
XdrEncoder = List ℕ

abbrev zero_padding : List ℕ
zero_padding = 0 ∷ 0 ∷ 0 ∷ []

module _ ⦃b : ByteBuf⦄ where
  unfoldable pub put_u32 : ℕ → XdrEncoder → XdrEncoder
  put_u32 value enc = b.put_u32 enc value

  unfoldable pub put_u64 : ℕ → XdrEncoder → XdrEncoder
  put_u64 value enc = b.put_u64 enc value

  unfoldable pub put_bool : Bool → XdrEncoder → XdrEncoder
  put_bool value enc = put_u32 (if value then 1 else 0) enc

  unfoldable pub put_bytes : List ℕ → XdrEncoder → XdrEncoder
  put_bytes value enc = b.extend_from_slice enc value

  unfoldable pub put_padding : ℕ → XdrEncoder → XdrEncoder
  put_padding len enc =
      let padding = xdr_padding len in
      if padding == 0 then enc else b.extend_from_slice enc (take padding zero_padding)

  unfoldable pub put_opaque : List ℕ → XdrEncoder → Result Error XdrEncoder
  put_opaque value enc = do
    word ← xdr_length_word (length value)
    let enc' = put_u32 word enc
    ok (if length value == 0 then enc' else put_padding (length value) (put_bytes value enc'))

  -- A `&str` stands as its bytes.
  unfoldable pub put_string : List ℕ → XdrEncoder → Result Error XdrEncoder
  unfolding put_opaque
  put_string value enc = put_opaque value enc
