-- ===== src/Nfs4/Body/Attrs/Moves.antt =====
-- src/nfs4/codec.rs: attribute values stay within their extent, and no decoder of them panics.
use nfs_crust.Prelude.{
  ℕ, zero, suc, ◌+◌, ◌-◌, ◌*◌, ◌≤◌, ◌≡◌, List, [], ◌∷◌, arith, length, ltb, ◌==◌, inl, inr,
  Bool-cases,
}
use nfs_crust.Result.Action.{Ensures, Ensures-weaken, ◌▹◌}
use nfs_crust.Xdr.ByteBuf.{ByteBuf}
use nfs_crust.Xdr.Length.{xdr_padding}
use nfs_crust.Xdr.Decoder.Moves.{Moved, u32_moves, u64_moves, read_u32_moves}
use nfs_crust.Xdr.Decoder.MovesOpaque.{read_opaque_extent_len_moves, finish_opaque_moves}
use nfs_crust.Nfs4.Types.{Bitmap, FileAttrs}
use nfs_crust.Nfs4.Body.Moves.{Shrinks, bitmap_words_moves}
use nfs_crust.Nfs4.Body.Attrs.{
  bitmap_attrs, require_attr_len, consume_attr_bytes, no_attrs, read_attr_u32, read_attr_u64,
  decode_attr, decode_attrs, decode_fattr_values, finish_if_longer, decode_size_attr,
  decode_type_and_size_attrs, decode_fattr_single_bitmap_word, read_words, decode_bitmap_after_len,
  decode_fattr,
}

-- As many bytes are read as the rest of the extent shrinks by.
abbrev Within : {A : Type 0} → List ℕ → ℕ → A × ℕ → List ℕ → Type 0
Within s left v s' = (length s' + left ≡ length s + v.1) × (v.1 ≤ left)

pub consume_moves :
    (left n : ℕ) (s : List ℕ)
    → Ensures (λ v s'. Moved s 0 s' × (v + n ≡ left)) (consume_attr_bytes left n s)
unfolding consume_attr_bytes
consume_moves left n s = elim (Bool-cases (ltb left n)) [
  | inl t ↦ rw t (record { holds = tt })
  | inr t ↦ rw t (record { holds = (omega arith, ground arith) })
]

pub require_attr_moves :
    (len n : ℕ) (s : List ℕ) → Ensures (λ _ s'. Moved s 0 s' × (n ≤ len)) (require_attr_len len n s)
unfolding require_attr_len
require_attr_moves len n s = elim (Bool-cases (ltb len n)) [
  | inl t ↦ rw t (record { holds = tt })
  | inr t ↦ rw t (record { holds = (omega arith, ground arith) })
]

module _ ⦃b : ByteBuf⦄ where
  attr_u32_moves :
      (left : ℕ) (s : List ℕ) → left ≤ length s → Ensures (Within s left) (read_attr_u32 left s)
  unfolding read_attr_u32
  attr_u32_moves left s h = consume_moves left 4 s ▹ λ v s1 h1.
      u32_moves s1 (omega arith) ▹ λ w s2 h2. record { holds = omega arith }

  attr_u64_moves :
      (left : ℕ) (s : List ℕ) → left ≤ length s → Ensures (Within s left) (read_attr_u64 left s)
  unfolding read_attr_u64
  attr_u64_moves left s h = consume_moves left 8 s ▹ λ v s1 h1.
      u64_moves s1 (omega arith) ▹ λ w s2 h2. record { holds = omega arith }

  attr_moves :
      (attr left : ℕ) (attrs : FileAttrs) (s : List ℕ)
      → left ≤ length s
      → Ensures (Within s left) (decode_attr attr left attrs s)
  unfolding decode_attr
  attr_moves attr left attrs s h = elim (Bool-cases (attr == 1)) [
    | inl t ↦ rw t (attr_u32_moves left s h ▹ λ v s1 h1. record { holds = h1 })
    | inr t ↦ rw t (elim (Bool-cases (attr == 4)) [
      | inl u ↦ rw u (attr_u64_moves left s h ▹ λ v s1 h1. record { holds = h1 })
      | inr u ↦ rw u (elim (Bool-cases (attr == 33)) [
        | inl w ↦ rw w (attr_u32_moves left s h ▹ λ v s1 h1. record { holds = h1 })
        | inr w ↦ rw w (record { holds = tt })
      ])
    ])
  ]

  attrs_moves :
      (todo : List ℕ) (left : ℕ) (attrs : FileAttrs) (s : List ℕ)
      → left ≤ length s
      → Ensures (Within s left) (decode_attrs todo left attrs s)
  unfolding decode_attrs
  attrs_moves [] left attrs s h = record { holds = omega arith }
  attrs_moves (attr ∷ todo) left attrs s h = attr_moves attr left attrs s h ▹ λ v s1 h1.
      Ensures-weaken _ (attrs_moves todo v.1 v.0 s1 (omega arith)) λ w s2 h2. omega arith

  fattr_values_moves :
      (bitmap : Bitmap) (s : List ℕ) → Ensures (Shrinks s) (decode_fattr_values bitmap s)
  unfolding decode_fattr_values
  fattr_values_moves bitmap s = read_opaque_extent_len_moves s ▹ λ len s1 h1.
      attrs_moves (bitmap_attrs bitmap 0) len no_attrs s1 (omega arith) ▹ λ v s2 h2.
      finish_opaque_moves len (len - v.1) s2 (omega arith) ▹ λ _ s3 h3. record {
        holds = omega arith;
      }

  words_moves : (n : ℕ) (s : List ℕ) → n * 4 ≤ length s → Ensures (Shrinks s) (read_words n s)
  unfolding read_words
  words_moves zero s h = record { holds = omega arith }
  words_moves (suc n) s h = u32_moves s (omega arith) ▹ λ v s1 h1.
      words_moves n s1 (omega arith) ▹ λ w s2 h2. record { holds = omega arith }

  bitmap_moves : (n : ℕ) (s : List ℕ) → Ensures (Shrinks s) (decode_bitmap_after_len n s)
  unfolding decode_bitmap_after_len
  bitmap_moves n s = bitmap_words_moves n s ▹ λ v s1 h1.
      Ensures-weaken _ (words_moves n s1 (omega arith)) λ w s2 h2. omega arith

  finish_if_longer_moves :
      (len n : ℕ) (s : List ℕ)
      → len - n + xdr_padding len ≤ length s
      → Ensures (Shrinks s) (finish_if_longer len n s)
  unfolding finish_if_longer
  finish_if_longer_moves len n s h = elim (Bool-cases (ltb n len)) [
    | inl t ↦ rw t (Ensures-weaken _ (finish_opaque_moves len n s h) λ _ s1 h1. omega arith)
    | inr t ↦ rw t (record { holds = omega arith })
  ]

  size_attr_moves : (s : List ℕ) → Ensures (Shrinks s) (decode_size_attr s)
  unfolding decode_size_attr
  size_attr_moves s = read_opaque_extent_len_moves s ▹ λ len s1 h1.
      require_attr_moves len 8 s1 ▹ λ _ s2 h2. u64_moves s2 (omega arith) ▹ λ size s3 h3.
      finish_if_longer_moves len 8 s3 (omega arith) ▹ λ _ s4 h4. record { holds = omega arith }

  type_and_size_moves : (s : List ℕ) → Ensures (Shrinks s) (decode_type_and_size_attrs s)
  unfolding decode_type_and_size_attrs
  type_and_size_moves s = read_opaque_extent_len_moves s ▹ λ len s1 h1.
      require_attr_moves len 12 s1 ▹ λ _ s2 h2. u32_moves s2 (omega arith) ▹ λ raw s3 h3.
      u64_moves s3 (omega arith) ▹ λ size s4 h4.
      finish_if_longer_moves len 12 s4 (omega arith) ▹ λ _ s5 h5. record { holds = omega arith }

  single_word_moves :
      (w : ℕ) (s : List ℕ) → Ensures (Shrinks s) (decode_fattr_single_bitmap_word w s)
  unfolding decode_fattr_single_bitmap_word
  single_word_moves w s = elim (Bool-cases (w == 0x10)) [
    | inl t ↦ rw t (size_attr_moves s)
    | inr t ↦ rw t (elim (Bool-cases (w == 0x12)) [
      | inl u ↦ rw u (type_and_size_moves s)
      | inr u ↦ rw u (fattr_values_moves (w ∷ []) s)
    ])
  ]

  pub fattr_moves : (s : List ℕ) → Ensures (Shrinks s) (decode_fattr s)
  unfolding decode_fattr
  fattr_moves s = read_u32_moves s ▹ λ n s1 h1. elim (Bool-cases (n == 1)) [
    | inl t ↦ rw t (
        read_u32_moves s1 ▹ λ w s2 h2.
        Ensures-weaken _ (single_word_moves w s2) λ v s3 h3. omega arith)
    | inr t ↦ rw t (
        bitmap_moves n s1 ▹ λ bitmap s2 h2.
        Ensures-weaken _ (fattr_values_moves bitmap s2) λ v s3 h3. omega arith)
  ]
