-- ===== src/Nfs4/Body/Attrs.antt =====
-- src/nfs4/codec.rs and src/nfs4/ops.rs: decoding file attributes.
pub mod Fast
pub mod Moves
use nfs_crust.Prelude.{
  ℕ, zero, suc, ◌+◌, ◌-◌, ◌*◌, ◌/◌, ◌%◌, bit_and, Bool, true, false, Option, none, some, List, [],
  ◌∷◌, ◌++◌, length, ltb, ◌==◌, if◌then◌else◌,
}
use nfs_crust.Prelude.Words.{u32_limit}
use nfs_crust.Result.{Result, ok, err, panic}
use nfs_crust.Result.Action.{◌>>=◌, ◌>>◌, pure, fail, lift}
use nfs_crust.Error.{Error}
use nfs_crust.Xdr.ByteBuf.{ByteBuf}
use nfs_crust.Xdr.Decoder.{
  Decoder, read_u32, read_u32_after_require, read_u64_after_require, read_opaque_extent_len,
  finish_opaque_after_require,
}
use nfs_crust.Nfs4.Types.{Bitmap, FileType, FileAttrs}
use nfs_crust.Nfs4.Body.{require_bitmap_words}

unfoldable pub file_type_from_raw : ℕ → FileType
file_type_from_raw value =
    if value == 1
    then FileType.regular
    else if value == 2
    then FileType.dir
    else FileType.other value

-- `trailing_zeros` of a number that is not zero; 32 rounds are enough for a word.
unfoldable pub trailing_zeros : ℕ → ℕ → ℕ
trailing_zeros zero w = 0
trailing_zeros (suc rounds) w =
    let rest = trailing_zeros rounds (w / 2) in if w % 2 == 1 then 0 else suc rest

-- What `BitmapAttrs` yields for one word: the bits that are set, lowest first. Each round clears one
-- bit, so 32 rounds are enough for a word. The number of an attribute is a `u32`, which wraps as in a
-- build without overflow checks.
abbrev pub attr_number : ℕ → ℕ → ℕ
attr_number index current_word =
    ((index % u32_limit) * 32 % u32_limit + trailing_zeros 32 current_word) % u32_limit

unfoldable pub word_attrs : ℕ → ℕ → ℕ → List ℕ
unfolding trailing_zeros
word_attrs zero current_word index = []
word_attrs (suc rounds) current_word index =
    let rest = word_attrs rounds (bit_and current_word (current_word - 1)) index in
    if current_word == 0 then [] else attr_number index current_word ∷ rest

unfoldable pub bitmap_attrs : Bitmap → ℕ → List ℕ
unfolding word_attrs
bitmap_attrs [] word_index = []
bitmap_attrs (word ∷ words) word_index =
    word_attrs 32 word word_index ++ bitmap_attrs words (suc word_index)

unfoldable pub require_attr_len : ℕ → ℕ → Decoder (Unit {0})
require_attr_len actual needed = if ltb actual needed then fail Error.xdr else pure tt

-- What is left of the attribute values after `needed` bytes.
unfoldable pub consume_attr_bytes : ℕ → ℕ → Decoder ℕ
consume_attr_bytes value_remaining needed =
    if ltb value_remaining needed then fail Error.xdr else pure (value_remaining - needed)

abbrev pub no_attrs : FileAttrs
no_attrs = record { file_type = none; size = none }

module _ ⦃b : ByteBuf⦄ where
  unfoldable pub read_attr_u32 : ℕ → Decoder (ℕ × ℕ)
  read_attr_u32 value_remaining = do
    left ← consume_attr_bytes value_remaining 4
    value ← read_u32_after_require
    pure (value, left)

  unfoldable pub read_attr_u64 : ℕ → Decoder (ℕ × ℕ)
  read_attr_u64 value_remaining = do
    left ← consume_attr_bytes value_remaining 8
    value ← read_u64_after_require
    pure (value, left)

  -- FATTR4_TYPE, FATTR4_SIZE and FATTR4_MODE are 1, 4 and 33.
  unfoldable pub decode_attr : ℕ → ℕ → FileAttrs → Decoder (FileAttrs × ℕ)
  decode_attr attr value_remaining attrs =
      if attr == 1
      then (do
        (raw, left) ← read_attr_u32 value_remaining
        pure (record attrs { file_type = some (file_type_from_raw raw) }, left))
      else if attr == 4
      then (do
        (size, left) ← read_attr_u64 value_remaining
        pure (record attrs { size = some size }, left))
      else if attr == 33
      then (do (mode, left) ← read_attr_u32 value_remaining; pure (attrs, left))
      else fail Error.unsupported

  unfoldable pub decode_attrs : List ℕ → ℕ → FileAttrs → Decoder (FileAttrs × ℕ)
  decode_attrs [] value_remaining attrs = pure (attrs, value_remaining)
  decode_attrs (attr ∷ rest) value_remaining attrs = do
    (attrs', left) ← decode_attr attr value_remaining attrs
    decode_attrs rest left attrs'

  unfoldable pub decode_fattr_values : Bitmap → Decoder FileAttrs
  decode_fattr_values bitmap = do
    len ← read_opaque_extent_len
    (attrs, value_remaining) ← decode_attrs (bitmap_attrs bitmap 0) len no_attrs
    finish_opaque_after_require len (len - value_remaining)
    pure attrs

  unfoldable pub finish_if_longer : ℕ → ℕ → Decoder (Unit {0})
  finish_if_longer len taken =
      if ltb taken len then finish_opaque_after_require len taken else pure tt

  unfoldable pub decode_size_attr : Decoder FileAttrs
  decode_size_attr = do
    len ← read_opaque_extent_len
    require_attr_len len 8
    size ← read_u64_after_require
    finish_if_longer len 8
    pure (record { file_type = none; size = some size })

  unfoldable pub decode_type_and_size_attrs : Decoder FileAttrs
  decode_type_and_size_attrs = do
    len ← read_opaque_extent_len
    require_attr_len len 12
    raw ← read_u32_after_require
    size ← read_u64_after_require
    finish_if_longer len 12
    pure (record { file_type = some (file_type_from_raw raw); size = some size })

  unfoldable pub decode_fattr_single_bitmap_word : ℕ → Decoder FileAttrs
  decode_fattr_single_bitmap_word bitmap_word =
      if bitmap_word == 0x10
      then decode_size_attr
      else if bitmap_word == 0x12
      then decode_type_and_size_attrs
      else decode_fattr_values (bitmap_word ∷ [])

  unfoldable pub read_words : ℕ → Decoder Bitmap
  read_words zero = pure []
  read_words (suc len) = do
    word ← read_u32_after_require
    words ← read_words len
    pure (word ∷ words)

  -- `Bitmap::decode_after_len`
  unfoldable pub decode_bitmap_after_len : ℕ → Decoder Bitmap
  decode_bitmap_after_len len = do bytes ← require_bitmap_words len; read_words len

  unfoldable pub decode_fattr : Decoder FileAttrs
  decode_fattr = do
    bitmap_len ← read_u32
    if bitmap_len == 1
        then (do word ← read_u32; decode_fattr_single_bitmap_word word)
        else (do bitmap ← decode_bitmap_after_len bitmap_len; decode_fattr_values bitmap)
