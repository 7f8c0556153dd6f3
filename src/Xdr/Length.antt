-- ===== src/Xdr/Length.antt =====
-- src/xdr.rs: the arithmetic of lengths and padding.
pub mod Laws
use nfs_crust.Prelude.{ℕ, ◌+◌, ◌-◌, ◌≤◌, bit_and, ltb, leb, Option, none, some, if◌then◌else◌}
use nfs_crust.Prelude.Words.{u32_limit, checked_add, saturating_add}
use nfs_crust.Result.{Result, ok, err, panic, ok_or}
use nfs_crust.Result.Try.{◌>>=◌}
use nfs_crust.Error.{Error}

unfoldable pub xdr_padding : ℕ → ℕ
xdr_padding len = bit_and (4 - bit_and len 3) 3

unfoldable pub xdr_fixed_opaque_len : ℕ → ℕ
xdr_fixed_opaque_len len = saturating_add len (xdr_padding len)

unfoldable pub xdr_opaque_len : ℕ → ℕ
xdr_opaque_len len = saturating_add 4 (xdr_fixed_opaque_len len)

-- The `expect` panics on a length that is no `u32`.
unfoldable pub xdr_length_word : ℕ → Result Error ℕ
xdr_length_word len = if ltb len u32_limit then ok len else panic

unfoldable pub opaque_padded_len : ℕ → Result Error ℕ
opaque_padded_len len = ok_or (checked_add len (xdr_padding len)) Error.xdr

unfoldable pub opaque_remaining_len : ℕ → ℕ → Result Error ℕ
opaque_remaining_len len consumed = do
  remaining_value ← if leb consumed len then ok (len - consumed) else err Error.xdr
  ok_or (checked_add remaining_value (xdr_padding len)) Error.xdr
