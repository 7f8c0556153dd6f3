-- ===== src/Nfs4/Body/Attrs/Fast.antt =====
-- src/nfs4/codec.rs: the decoders for the two common bitmaps agree with the general one.
use nfs_crust.Prelude.{
  ℕ, ◌-◌, ◌≤◌, ◌≡◌, refl, ap, sym, ◌∙◌, true, false, List, [], ◌∷◌, arith, length, drop,
  length-drop, ltb, leb, ◌==◌, ==_iff, inl, inr, Bool-cases,
}
use nfs_crust.Result.Action.{and_then-cong}
use nfs_crust.Result.{ok}
use nfs_crust.Xdr.ByteBuf.{ByteBuf}
use nfs_crust.Xdr.Length.{xdr_padding, opaque_remaining_len}
use nfs_crust.Xdr.Decoder.{
  finish_opaque_after_require, skip_bytes_after_require, read_opaque_extent_len,
  read_u64_after_require, read_u32_after_require,
}
use nfs_crust.Xdr.Decoder.MovesOpaque.{read_opaque_extent_len_moves}
use nfs_crust.Nfs4.Body.Attrs.{
  bitmap_attrs, require_attr_len, consume_attr_bytes, read_attr_u32, read_attr_u64, decode_attr,
  decode_attrs, decode_fattr_values, finish_if_longer, decode_size_attr, decode_type_and_size_attrs,
  decode_fattr_single_bitmap_word,
}

size_word : bitmap_attrs (0x10 ∷ []) 0 ≡ 4 ∷ []
unfolding bitmap_attrs
size_word = refl

type_and_size_word : bitmap_attrs (0x12 ∷ []) 0 ≡ 1 ∷ 4 ∷ []
unfolding bitmap_attrs
type_and_size_word = refl

module _ ⦃b : ByteBuf⦄ where
  skip_none : (s : List ℕ) → skip_bytes_after_require 0 s ≡ ok (tt, s)
  unfolding skip_bytes_after_require
  skip_none s = rw (b.advance_drops 0 s (omega arith), skip_bytes_after_require) refl

  finish_whole :
      (len : ℕ) (s : List ℕ)
      → xdr_padding len ≡ 0
      → finish_opaque_after_require len len s ≡ ok (tt, s)
  unfolding finish_opaque_after_require opaque_remaining_len
  finish_whole len s h =
      let whole : leb len len ≡ true = ground arith in
      let nothing : len - len ≡ 0 = omega arith in rw (whole, h, nothing) (skip_none s)

  finish_at :
      (n len : ℕ) (s : List ℕ)
      → n ≡ len
      → xdr_padding n ≡ 0
      → finish_opaque_after_require len n s ≡ ok (tt, s)
  finish_at n len s e p = rw e (finish_whole len s (ap xdr_padding (sym e) ∙ p))

  finish_same :
      (len n : ℕ) (s : List ℕ)
      → n ≤ len
      → xdr_padding n ≡ 0
      → finish_if_longer len n s ≡ finish_opaque_after_require len (len - (len - n)) s
  unfolding finish_if_longer
  finish_same len n s h p =
      let back : len - (len - n) ≡ n = omega arith in
      elim (Bool-cases (ltb n len)) [
        | inl t ↦ rw (t, back) refl
        | inr t ↦ let same : n ≡ len = ground arith in rw (t, back) (sym (finish_at n len s same p))
      ]

  reads_u64 : (s : List ℕ) → 8 ≤ length s → (v : ℕ) × (read_u64_after_require s ≡ ok (v, drop 8 s))
  unfolding read_u64_after_require
  reads_u64 s h = let (v, bound, e) = b.get_u64_takes s h in (v, rw e refl)

  reads_u32 : (s : List ℕ) → 4 ≤ length s → (v : ℕ) × (read_u32_after_require s ≡ ok (v, drop 4 s))
  unfolding read_u32_after_require
  reads_u32 s h = let (v, bound, e) = b.get_u32_takes s h in (v, rw e refl)

  decode_size_attr_lem : (s : List ℕ) → decode_size_attr s ≡ decode_fattr_values (0x10 ∷ []) s
  unfolding decode_size_attr decode_fattr_values require_attr_len decode_attrs decode_attr
      read_attr_u64 consume_attr_bytes xdr_padding
  decode_size_attr_lem s = rw size_word (
      and_then-cong (read_opaque_extent_len s) (read_opaque_extent_len_moves s) λ len s1 h.
        elim (Bool-cases (ltb len 8)) [
          | inl t ↦ rw t refl
          | inr t ↦
              let (v, e) = reads_u64 s1 (ground arith) in
              rw (t, e, finish_same len 8 (drop 8 s1) (ground arith) refl) refl
        ])

  decode_type_and_size_attrs_lem :
      (s : List ℕ) → decode_type_and_size_attrs s ≡ decode_fattr_values (0x12 ∷ []) s
  unfolding decode_type_and_size_attrs decode_fattr_values require_attr_len decode_attrs decode_attr
      read_attr_u64 read_attr_u32 consume_attr_bytes xdr_padding
  decode_type_and_size_attrs_lem s = rw type_and_size_word (
      and_then-cong (read_opaque_extent_len s) (read_opaque_extent_len_moves s) λ len s1 h.
        elim (Bool-cases (ltb len 12)) [
          | inl t ↦ elim (Bool-cases (ltb len 4)) [
            | inl u ↦ rw (t, u) refl
            | inr u ↦
                let (v, e) = reads_u32 s1 (ground arith) in
                let rest : ltb (len - 4) 8 ≡ true = ground arith in rw (t, u, e) (rw rest refl)
          ]
          | inr t ↦
              let head : ltb len 4 ≡ false = ground arith in
              let rest : ltb (len - 4) 8 ≡ false = ground arith in
              let left : len - 4 - 8 ≡ len - 12 = omega arith in
              let (v, e) = reads_u32 s1 (ground arith) in
              let (w, f) = reads_u64 (drop 4 s1) (ground (arith, length-drop 4 s1)) in
              rw (t, head, e)
                (rw (rest, f)
                  (rw (left, finish_same len 12 (drop 8 (drop 4 s1)) (ground arith) refl) refl))
        ])

  -- For a bitmap of one word, the fast decoders of the two common requests give what the general
  -- decoder of attribute values gives: on all words and all bytes, errors included.
  pub decode_fattr_single_bitmap_word_lem :
      (w : ℕ) (s : List ℕ) → decode_fattr_single_bitmap_word w s ≡ decode_fattr_values (w ∷ []) s
  unfolding decode_fattr_single_bitmap_word
  decode_fattr_single_bitmap_word_lem w s = elim (Bool-cases (w == 0x10)) [
    | inl t ↦ rw ((==_iff w 0x10).0 t) (decode_size_attr_lem s)
    | inr t ↦ rw t (elim (Bool-cases (w == 0x12)) [
      | inl u ↦ rw ((==_iff w 0x12).0 u) (decode_type_and_size_attrs_lem s)
      | inr u ↦ rw u refl
    ])
  ]
