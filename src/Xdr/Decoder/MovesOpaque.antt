-- ===== src/Xdr/Decoder/MovesOpaque.antt =====
-- The variable-length values of src/xdr.rs: no reader panics, and each moves past its padding.
use nfs_crust.Prelude.{
  ℕ, ◌+◌, ◌-◌, ◌≤◌, ◌<◌, ◌≡◌, refl, ap, Bool, true, List, arith, length, leb, inl, inr, Bool-cases,
  ==_iff, ◌==◌,
}
use nfs_crust.Prelude.Words.{u32_limit}
use nfs_crust.Result.Action.{Ensures, Ensures-lift, Ensures-weaken, ◌▹◌}
use nfs_crust.Xdr.ByteBuf.{ByteBuf}
use nfs_crust.Xdr.Length.{xdr_padding, opaque_remaining_len}
use nfs_crust.Xdr.Decoder.{
  read_opaque_bytes, read_bool_and_opaque, read_opaque, read_opaque_extent_len,
  finish_opaque_after_require, peek, checked_text, read_string_unless,
  read_u32_skip_opaque_and_read_u32,
}
use nfs_crust.Xdr.Decoder.Moves.{
  Moved, require_moves, checked_len_moves, padded_moves, bool_word_moves, u32_moves, skip_moves,
  copy_moves, read_u32_moves, read_u32_pair_moves,
}

module _ ⦃b : ByteBuf⦄ where
  pub read_opaque_bytes_moves :
      (n : ℕ) (s : List ℕ)
      → Ensures (λ v s'. Moved s (n + xdr_padding n) s' × (length v ≡ n)) (read_opaque_bytes n s)
  unfolding read_opaque_bytes
  read_opaque_bytes_moves n s = elim (Bool-cases (n == 0)) [
    | inl z ↦
        rw (z, read_opaque_bytes)
          (record { holds = rw ((==_iff n 0).0 z) (unfold xdr_padding in (omega arith, refl)) })
    | inr p ↦
        rw (p, read_opaque_bytes)
          (padded_moves n s ▹ λ t s0 h0. require_moves t s0 ▹ λ _ s1 h1.
            copy_moves n s1 (omega arith) ▹ λ v s2 h2.
            skip_moves (xdr_padding n) s2 (omega arith) ▹ λ _ s3 h3. record { holds = omega arith })
  ]

  pub read_opaque_moves :
      (s : List ℕ)
      → Ensures (λ v s'. Moved s (4 + (length v + xdr_padding (length v))) s') (read_opaque s)
  unfolding read_opaque
  read_opaque_moves s = read_u32_moves s ▹ λ n s1 h1.
      Ensures-weaken _ (read_opaque_bytes_moves n s1)
        λ v s2 h2. omega (arith, h1, h2, ap xdr_padding h2.1)

  pub read_bool_and_opaque_moves :
      (s : List ℕ)
      → Ensures
          (λ v s'. Moved s (8 + (length v.1 + xdr_padding (length v.1))) s')
          (read_bool_and_opaque s)
  unfolding read_bool_and_opaque
  read_bool_and_opaque_moves s = read_u32_pair_moves s ▹ λ w s1 h1.
      bool_word_moves w.0 s1 ▹ λ value s2 h2. read_opaque_bytes_moves w.1 s2 ▹ λ v s3 h3. record {
        holds = omega (arith, h1, h2, h3, ap xdr_padding h3.1);
      }

  -- The length that is announced is there, padding included.
  pub read_opaque_extent_len_moves :
      (s : List ℕ)
      → Ensures
          (λ n s'. Moved s 4 s' × (n + xdr_padding n ≤ length s') × (n < u32_limit))
          (read_opaque_extent_len s)
  unfolding read_opaque_extent_len
  read_opaque_extent_len_moves s = read_u32_moves s ▹ λ n s1 h1.
      padded_moves n s1 ▹ λ t s2 h2. require_moves t s2 ▹ λ _ s3 h3. record { holds = omega arith }

  pub finish_opaque_moves :
      (n consumed : ℕ) (s : List ℕ)
      → n - consumed + xdr_padding n ≤ length s
      → Ensures
          (λ _ s'. Moved s (n - consumed + xdr_padding n) s')
          (finish_opaque_after_require n consumed s)
  unfolding finish_opaque_after_require opaque_remaining_len
  finish_opaque_moves n consumed s h =
      Ensures-lift (λ r s'. Moved s 0 s' × (r ≡ n - consumed + xdr_padding n))
        (opaque_remaining_len n consumed) s (λ e. ground arith) (λ r e. (omega arith, ground arith))
      ▹ λ r s1 h1. Ensures-weaken _ (skip_moves r s1 (omega arith)) λ _ s2 h2. omega arith

  peek_moves : (n : ℕ) (s : List ℕ) → n ≤ length s → Ensures (λ v s'. Moved s 0 s') (peek n s)
  unfolding peek
  peek_moves n s h =
      let there : leb n (length s) ≡ true = ground arith in
      rw (there, peek) (record { holds = omega arith })

  pub read_string_unless_moves :
      (skip : List ℕ → Bool) (s : List ℕ)
      → Ensures (λ _ s'. length s' + 4 ≤ length s) (read_string_unless skip s)
  unfolding read_string_unless checked_text
  read_string_unless_moves skip s = read_u32_moves s ▹ λ n s1 h1.
      checked_len_moves n (xdr_padding n) s1 ▹ λ t s2 h2. require_moves t s2 ▹ λ _ s3 h3.
      peek_moves n s3 (omega arith) ▹ λ v s4 h4.
      Ensures-lift (λ _ s'. Moved s4 0 s') (checked_text (skip v) v) s4 (λ e. ground arith)
        (λ _ _. omega arith)
      ▹ λ text s5 h5. skip_moves t s5 (omega arith) ▹ λ _ s6 h6. record { holds = omega arith }

  pub read_u32_skip_opaque_and_read_u32_moves :
      (s : List ℕ)
      → Ensures
          (λ v s'. (length s' + 12 ≤ length s) × (v.0 < u32_limit) × (v.1 < u32_limit))
          (read_u32_skip_opaque_and_read_u32 s)
  unfolding read_u32_skip_opaque_and_read_u32
  read_u32_skip_opaque_and_read_u32_moves s = read_u32_pair_moves s ▹ λ w s1 h1.
      padded_moves w.1 s1 ▹ λ t s2 h2. checked_len_moves t 4 s2 ▹ λ u s3 h3.
      require_moves u s3 ▹ λ _ s4 h4. skip_moves t s4 (omega arith) ▹ λ _ s5 h5.
      u32_moves s5 (omega arith) ▹ λ v s6 h6. record { holds = omega arith }
