-- ===== src/Xdr/Length/Laws.antt =====
-- The padding of src/xdr.rs as a remainder, and what follows for the lengths on the wire.
use nfs_crust.Prelude.{ℕ, ◌+◌, ◌-◌, ◌%◌, ◌≤◌, ◌<◌, ◌≡◌, bit_and, arith}
use nfs_crust.Prelude.Bits.{bit_and-three}
use nfs_crust.Prelude.Words.{u32_limit}
use nfs_crust.Result.{ok}
use nfs_crust.Xdr.Length.{
  xdr_padding, xdr_fixed_opaque_len, xdr_opaque_len, opaque_padded_len, opaque_remaining_len,
}

pub xdr_padding_lem : (len : ℕ) → xdr_padding len ≡ (4 - len % 4) % 4
unfolding xdr_padding
xdr_padding_lem len = omega (arith, bit_and-three len, bit_and-three (4 - bit_and len 3))

-- Padding takes a length to the next multiple of four, and adds less than four bytes.
pub xdr_padding_aligns : (len : ℕ) → ((len + xdr_padding len) % 4 ≡ 0) × (xdr_padding len < 4)
xdr_padding_aligns len = omega (arith, xdr_padding_lem len)

pub opaque_padded_len_lem :
    (len : ℕ) → len < u32_limit → opaque_padded_len len ≡ ok (len + xdr_padding len)
unfolding opaque_padded_len
opaque_padded_len_lem len h = ground (arith, xdr_padding_aligns len)

pub xdr_opaque_len_lem :
    (len : ℕ) → len < u32_limit → xdr_opaque_len len ≡ 4 + (len + xdr_padding len)
unfolding xdr_opaque_len xdr_fixed_opaque_len
xdr_opaque_len_lem len h = omega (arith, xdr_padding_aligns len)

pub opaque_remaining_len_lem :
    (len consumed : ℕ)
    → len < u32_limit
    → consumed ≤ len
    → opaque_remaining_len len consumed ≡ ok (len - consumed + xdr_padding len)
unfolding opaque_remaining_len
opaque_remaining_len_lem len consumed h c = ground (arith, xdr_padding_aligns len)
