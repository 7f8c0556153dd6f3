-- ===== src/Nfs4/Writer.antt =====
-- src/nfs4.rs, src/nfs4/ops.rs and src/nfs4/codec.rs: the parts that operations are encoded from.
-- A method that writes to an encoder is a `Writer`; a body of several writes is a list `writes`.
pub mod Emits
use nfs_crust.Prelude.{
  ℕ, zero, suc, ◌+◌, ◌*◌, ◌/◌, ◌%◌, ◌^◌, bit_or, Bool, true, false, ◌&&◌, Option, none, some, List,
  [], ◌∷◌, length, ◌==◌, if◌then◌else◌,
}
use nfs_crust.Prelude.Words.{saturating_add, saturating_mul, u32_limit}
use nfs_crust.Result.{Result, ok}
use nfs_crust.Result.Try.{◌>>=◌}
use nfs_crust.Error.{Error}
use nfs_crust.Xdr.ByteBuf.{ByteBuf}
use nfs_crust.Xdr.Length.{xdr_fixed_opaque_len, xdr_opaque_len}
use nfs_crust.Xdr.Encoder.{
  XdrEncoder, put_u32, put_u64, put_bool, put_bytes, put_opaque, put_string,
}
use nfs_crust.Nfs4.Types.{FileHandle, StateId, Bitmap}

pub record SetAttrs : Type 0 where
  pub size : Option ℕ
  pub mode : Option ℕ

abbrev is_some : Option ℕ → Bool
is_some none = false
is_some (some n) = true

-- FATTR4_SIZE is 4 and FATTR4_MODE is 33.
unfoldable pub bitmap_words : SetAttrs → ℕ
bitmap_words a = if is_some a.mode then 33 / 32 + 1 else if is_some a.size then 4 / 32 + 1 else 0

unfoldable pub bitmap_word : SetAttrs → ℕ → ℕ
bitmap_word a word_index =
    let word = if is_some a.size && 4 / 32 == word_index % u32_limit then 2 ^ (4 % 32) else 0 in
    if is_some a.mode && 33 / 32 == word_index % u32_limit
    then bit_or word (2 ^ (33 % 32))
    else word

unfoldable pub values_len : SetAttrs → ℕ
values_len a = saturating_add (if is_some a.size then 8 else 0) (if is_some a.mode then 4 else 0)

-- The lengths that the client computes beforehand.
abbrev pub saturating_sum : ℕ → List ℕ → ℕ
saturating_sum total [] = total
saturating_sum total (part ∷ parts) = saturating_sum (saturating_add total part) parts

unfoldable pub saturating_encoded_len : List ℕ → ℕ
saturating_encoded_len parts = saturating_sum 0 parts

unfoldable pub set_attrs_len : SetAttrs → ℕ
unfolding bitmap_words values_len
set_attrs_len a =
    saturating_add (saturating_add 4 (saturating_mul (bitmap_words a) 4))
      (xdr_opaque_len (values_len a))

unfoldable pub bitmap_len : Bitmap → ℕ
bitmap_len words = saturating_add 4 (saturating_mul (length words) 4)

unfoldable pub stateid_len : ℕ
stateid_len = 4 + xdr_fixed_opaque_len 12

unfoldable pub channel_attrs_len : ℕ
channel_attrs_len = 7 * 4

abbrev pub Writer : Type 0
Writer = XdrEncoder → Result Error XdrEncoder

-- One write after the other.
unfoldable pub writes : List Writer → Writer
writes [] enc = ok enc
writes (w ∷ ws) enc = w enc >>= writes ws

module _ ⦃b : ByteBuf⦄ where
  abbrev pub u32 : ℕ → Writer
  u32 value enc = ok (put_u32 value enc)

  abbrev pub u64 : ℕ → Writer
  u64 value enc = ok (put_u64 value enc)

  abbrev pub raw : List ℕ → Writer
  raw value enc = ok (put_bytes value enc)

  abbrev pub flag : Bool → Writer
  flag value enc = ok (put_bool value enc)

  unfoldable pub encode_file_handle : FileHandle → Writer
  encode_file_handle fh = put_opaque fh

  unfoldable pub encode_stateid : StateId → Writer
  encode_stateid stateid = writes (u32 stateid.seqid ∷ raw stateid.other ∷ [])

  abbrev pub u32_each : List ℕ → List Writer
  u32_each [] = []
  u32_each (word ∷ words) = u32 word ∷ u32_each words

  unfoldable pub encode_bitmap : Bitmap → Writer
  encode_bitmap words = writes (u32 (length words % u32_limit) ∷ u32_each words)

  -- `bitmap_word(0)` up to `bitmap_word(rounds - 1)`
  abbrev pub word_list : SetAttrs → ℕ → ℕ → List ℕ
  word_list a index zero = []
  word_list a index (suc rounds) = bitmap_word a index ∷ word_list a (suc index) rounds

  abbrev pub u64_if : Option ℕ → Writer
  u64_if none enc = ok enc
  u64_if (some value) enc = ok (put_u64 value enc)

  abbrev pub u32_if : Option ℕ → Writer
  u32_if none enc = ok enc
  u32_if (some value) enc = ok (put_u32 value enc)

  unfoldable pub encode_set_attrs : SetAttrs → Writer
  unfolding bitmap_words bitmap_word values_len
  encode_set_attrs a = writes (
      u32 (bitmap_words a % u32_limit)
      ∷ writes (u32_each (word_list a 0 (bitmap_words a)))
      ∷ u32 (values_len a % u32_limit)
      ∷ u64_if a.size
      ∷ u32_if a.mode
      ∷ [])

  unfoldable pub encode_channel_attrs : ℕ → ℕ → ℕ → Writer
  encode_channel_attrs max_request max_response slots = writes (
      u32 0
      ∷ u32 max_request
      ∷ u32 max_response
      ∷ u32 max_response
      ∷ u32 64
      ∷ u32 slots
      ∷ u32 0
      ∷ [])
