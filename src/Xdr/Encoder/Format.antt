-- ===== src/Xdr/Encoder/Format.antt =====
-- What `XdrEncoder` of src/xdr.rs writes: each method appends the XDR form of its value.
use nfs_crust.Prelude.{
  ℕ, zero, suc, ◌+◌, ◌<◌, ◌≡◌, refl, sym, ap, ◌∙◌, false, List, [], ◌∷◌, ◌++◌, append-nil,
  append_assoc, arith, length, take, replicate, length-append, length-replicate, inl, inr,
  Bool-cases, lt→ltb, ==_iff, ◌==◌, if◌then◌else◌,
}
use nfs_crust.Prelude.Words.{be, u32_limit, u64_limit, length-be}
use nfs_crust.Result.{ok}
use nfs_crust.Xdr.ByteBuf.{ByteBuf}
use nfs_crust.Xdr.Length.{xdr_padding, xdr_length_word}
use nfs_crust.Xdr.Length.Laws.{xdr_padding_aligns}
use nfs_crust.Xdr.Encoder.{
  XdrEncoder, zero_padding, put_u32, put_u64, put_bytes, put_padding, put_opaque,
}

-- A length, the bytes, and zeros up to a multiple of four.
abbrev pub opaque_format : List ℕ → List ℕ
opaque_format v = be 4 (length v) ++ (v ++ replicate (xdr_padding (length v)) 0)

pub length-opaque_format :
    (v : List ℕ) → length (opaque_format v) ≡ 4 + (length v + xdr_padding (length v))
length-opaque_format v = rw (length-append, length-append, length-be, length-replicate) refl

take-zero_padding : (n : ℕ) → n < 4 → take n zero_padding ≡ replicate n 0
take-zero_padding zero h = refl
take-zero_padding (suc zero) h = refl
take-zero_padding (suc (suc zero)) h = refl
take-zero_padding (suc (suc (suc zero))) h = refl
take-zero_padding (suc (suc (suc (suc n)))) h = absurd (omega arith)

module _ ⦃b : ByteBuf⦄ where
  pub put_u32-format : (v : ℕ) (enc : XdrEncoder) → v < u32_limit → put_u32 v enc ≡ enc ++ be 4 v
  unfolding put_u32
  put_u32-format v enc h = b.put_u32_appends enc v h

  pub put_u64-format : (v : ℕ) (enc : XdrEncoder) → v < u64_limit → put_u64 v enc ≡ enc ++ be 8 v
  unfolding put_u64
  put_u64-format v enc h = b.put_u64_appends enc v h

  pub put_bytes-format : (v : List ℕ) (enc : XdrEncoder) → put_bytes v enc ≡ enc ++ v
  unfolding put_bytes
  put_bytes-format v enc = b.extend_appends enc v

  put_padding-format :
      (len : ℕ) (enc : XdrEncoder) → put_padding len enc ≡ enc ++ replicate (xdr_padding len) 0
  unfolding put_padding
  put_padding-format len enc = elim (Bool-cases (xdr_padding len == 0)) [
    | inl z ↦ rw (z, (==_iff (xdr_padding len) 0).0 z) (sym (append-nil enc))
    | inr n ↦ rw n (
        b.extend_appends enc (take (xdr_padding len) zero_padding)
        ∙ ap (λ t. enc ++ t) (take-zero_padding (xdr_padding len) (xdr_padding_aligns len).1))
  ]

  -- `put_opaque` appends the XDR form of every value whose length is a `u32`, and does not panic.
  pub put_opaque-format :
      (v : List ℕ) (enc : XdrEncoder)
      → length v < u32_limit
      → put_opaque v enc ≡ ok (enc ++ opaque_format v)
  unfolding put_opaque xdr_length_word
  put_opaque-format v enc h = rw (lt→ltb _ _ h) (ap ok (body v))
    where
      word : put_u32 (length v) enc ≡ enc ++ be 4 (length v)
      word = put_u32-format (length v) enc h

      body :
          (u : List ℕ)
          → (if length u == 0
              then put_u32 (length v) enc
              else put_padding (length u) (put_bytes u (put_u32 (length v) enc)))
            ≡ enc ++ (be 4 (length v) ++ (u ++ replicate (xdr_padding (length u)) 0))
      body [] = unfold xdr_padding in word ∙ ap (λ t. enc ++ t) (sym (append-nil _))
      body (x ∷ u) =
          let full : (length (x ∷ u) == 0) ≡ false = ground arith in
          rw (full, word, put_bytes-format, put_padding-format) (simp append_assoc)
