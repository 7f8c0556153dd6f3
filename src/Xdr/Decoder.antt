-- ===== src/Xdr/Decoder.antt =====
-- src/xdr.rs: `XdrDecoder`. A method is an action on the bytes still to be read.
pub mod Utf8
pub mod Moves
pub mod MovesOpaque
use nfs_crust.Prelude.{
  ℕ, ◌+◌, Bool, true, false, Option, none, some, List, [], length, take, ltb, leb, ◌==◌,
  if◌then◌else◌,
}
use nfs_crust.Prelude.Words.{checked_add}
use nfs_crust.Result.{Result, ok, err, panic, ok_or}
use nfs_crust.Result.Action.{Action, ◌>>=◌, ◌>>◌, pure, fail, lift}
use nfs_crust.Error.{Error}
use nfs_crust.Xdr.ByteBuf.{ByteBuf}
use nfs_crust.Xdr.Length.{xdr_padding, opaque_padded_len, opaque_remaining_len}
use Utf8.{is_utf8}

abbrev pub Decoder : Type 0 → Type 0
Decoder = Action Error (List ℕ)

-- A call into the buffer that may panic.
abbrev pub or_panic : {A : Type 0} → Option A → Result Error A
or_panic none = panic
or_panic (some a) = ok a

unfoldable pub remaining : Decoder ℕ
remaining s = ok (length s, s)

unfoldable pub require : ℕ → Decoder (Unit {0})
require len s = if ltb (length s) len then err Error.xdr else ok (tt, s)

unfoldable pub decode_bool_word : ℕ → Result Error Bool
decode_bool_word value =
    if value == 0 then ok false else if value == 1 then ok true else err Error.xdr

-- `usize` arithmetic that must not overflow.
unfoldable pub checked_len : ℕ → ℕ → Decoder ℕ
checked_len a b = lift (ok_or (checked_add a b) Error.xdr)

module _ ⦃b : ByteBuf⦄ where
  unfoldable pub read_u32_after_require : Decoder ℕ
  read_u32_after_require s = or_panic (b.get_u32 s)

  unfoldable pub read_u64_after_require : Decoder ℕ
  read_u64_after_require s = or_panic (b.get_u64 s)

  unfoldable pub skip_bytes_after_require : ℕ → Decoder (Unit {0})
  skip_bytes_after_require len s = elim (b.advance len s) [
    | none ↦ panic
    | some rest ↦ ok (tt, rest)
  ]

  -- `copy_to_slice` into an array of `n` bytes, and `copy_to_bytes(n)`.
  unfoldable pub copy_bytes : ℕ → Decoder (List ℕ)
  copy_bytes n s = or_panic (b.copy_to n s)

  unfoldable pub read_u32 : Decoder ℕ
  read_u32 = do require 4; read_u32_after_require

  unfoldable pub read_u64 : Decoder ℕ
  read_u64 = do require 8; read_u64_after_require

  unfoldable pub read_u32_pair : Decoder (ℕ × ℕ)
  read_u32_pair = do require 8; x ← read_u32_after_require; y ← read_u32_after_require; pure (x, y)

  unfoldable pub read_u32_triple : Decoder (ℕ × ℕ × ℕ)
  read_u32_triple = do
    require 12
    x ← read_u32_after_require
    y ← read_u32_after_require
    z ← read_u32_after_require
    pure (x, y, z)

  unfoldable pub read_u32_and_bytes : ℕ → Decoder (ℕ × List ℕ)
  read_u32_and_bytes n = do
    total_len ← checked_len 4 n
    require total_len
    word ← read_u32_after_require
    bytes ← copy_bytes n
    pure (word, bytes)

  unfoldable pub read_u32_pair_and_bytes : ℕ → Decoder (ℕ × ℕ × List ℕ)
  read_u32_pair_and_bytes n = do
    total_len ← checked_len 8 n
    require total_len
    x ← read_u32_after_require
    y ← read_u32_after_require
    bytes ← copy_bytes n
    pure (x, y, bytes)

  unfoldable pub read_bool : Decoder Bool
  read_bool = do value ← read_u32; lift (decode_bool_word value)

  unfoldable pub read_bool_and_skip : ℕ → Decoder Bool
  read_bool_and_skip skip_len = do
    total_len ← checked_len 4 skip_len
    require total_len
    word ← read_u32_after_require
    out ← lift (decode_bool_word word)
    skip_bytes_after_require skip_len
    pure out

  unfoldable pub read_opaque_bytes : ℕ → Decoder (List ℕ)
  read_opaque_bytes len = if len == 0 then pure [] else do
    total_len ← lift (opaque_padded_len len)
    require total_len
    out ← copy_bytes len
    skip_bytes_after_require (xdr_padding len)
    pure out

  unfoldable pub read_bool_and_opaque : Decoder (Bool × List ℕ)
  read_bool_and_opaque = do
    (word, len) ← read_u32_pair
    value ← lift (decode_bool_word word)
    bytes ← read_opaque_bytes len
    pure (value, bytes)

  unfoldable pub read_bytes : ℕ → Decoder (List ℕ)
  read_bytes n = do require n; copy_bytes n

  unfoldable pub skip_bytes : ℕ → Decoder (Unit {0})
  skip_bytes len = do require len; skip_bytes_after_require len

  unfoldable pub read_opaque : Decoder (List ℕ)
  read_opaque = do len ← read_u32; read_opaque_bytes len

  unfoldable pub read_opaque_extent_len : Decoder ℕ
  read_opaque_extent_len = do
    len ← read_u32
    total_len ← lift (opaque_padded_len len)
    require total_len
    pure len

  unfoldable pub finish_opaque_after_require : ℕ → ℕ → Decoder (Unit {0})
  finish_opaque_after_require len consumed = do
    skip_len ← lift (opaque_remaining_len len consumed)
    skip_bytes_after_require skip_len

  -- `&self.buf[..len]`
  unfoldable pub peek : ℕ → Decoder (List ℕ)
  peek len s = if leb len (length s) then ok (take len s, s) else panic

  -- The text of the value, or nothing if `skip` says so; other bytes than UTF-8 are an error.
  unfoldable pub checked_text : Bool → List ℕ → Result Error (Option (List ℕ))
  checked_text skipped value =
      if skipped then ok none else if is_utf8 value then ok (some value) else err Error.xdr

  unfoldable pub read_string_unless : (List ℕ → Bool) → Decoder (Option (List ℕ))
  read_string_unless skip = do
    len ← read_u32
    total_len ← checked_len len (xdr_padding len)
    require total_len
    value ← peek len
    string ← lift (checked_text (skip value) value)
    skip_bytes_after_require total_len
    pure string

  unfoldable pub read_u32_skip_opaque_and_read_u32 : Decoder (ℕ × ℕ)
  read_u32_skip_opaque_and_read_u32 = do
    (first, len) ← read_u32_pair
    skip_len ← lift (opaque_padded_len len)
    total_len ← checked_len skip_len 4
    require total_len
    skip_bytes_after_require skip_len
    last ← read_u32_after_require
    pure (first, last)

  unfoldable pub skip_opaque : Decoder (Unit {0})
  skip_opaque = do
    len ← read_u32
    skip_len ← lift (opaque_padded_len len)
    if skip_len == 0 then pure tt else do require skip_len; skip_bytes_after_require skip_len

  unfoldable pub into_remaining : List ℕ → Result Error (List ℕ)
  into_remaining s =
      if length s == 0
      then ok []
      else elim (b.copy_to (length s) s) [ none ↦ panic | some (out, rest) ↦ ok out ]
