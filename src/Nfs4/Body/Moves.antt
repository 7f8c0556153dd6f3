-- ===== src/Nfs4/Body/Moves.antt =====
-- src/nfs4/codec.rs: no decoder of a result body panics, and each only moves forward.
use nfs_crust.Prelude.{
  ℕ, ◌+◌, ◌*◌, ◌≤◌, ◌≡◌, refl, Bool, true, false, List, arith, bit_and, length, ltb, ◌==◌, ◌||◌,
  if◌then◌else◌, inl, inr, Bool-cases,
}
use nfs_crust.Prelude.Words.{checked_mul}
use nfs_crust.Result.{ok_or}
use nfs_crust.Result.Action.{Ensures, Ensures-lift, Ensures-weaken, ◌▹◌, fail}
use nfs_crust.Error.{Error}
use nfs_crust.Xdr.ByteBuf.{ByteBuf}
use nfs_crust.Xdr.Decoder.{remaining, Decoder, skip_opaque}
use nfs_crust.Xdr.Decoder.Moves.{
  Moved, skip_moves, read_u32_moves, read_u32_pair_moves, read_u32_and_bytes_moves,
  read_u32_pair_and_bytes_moves, read_bool_moves, read_bool_and_skip_moves, skip_bytes_moves,
}
use nfs_crust.Xdr.Decoder.MovesOpaque.{read_opaque_moves, read_bool_and_opaque_moves}
use nfs_crust.Xdr.RoundTrip.{skip_opaque-read_opaque}
use nfs_crust.Nfs4.Writer.{stateid_len}
use nfs_crust.Nfs4.Body.{
  stability_from_raw, require_bitmap_words, will_signal, skip_sequence_data, decode_file_handle,
  decode_read_data, decode_write_data, decode_stateid, skip_stateid, skip_change_info,
  skip_bitmap_after_len, skip_bitmap, skip_fattr, delegation_why, decode_open_delegation,
  decode_open_stateid,
}

-- No more bytes are left.
abbrev pub Shrinks : {A : Type 0} → List ℕ → A → List ℕ → Type 0
Shrinks s a s' = length s' ≤ length s

pub remaining_moves : (s : List ℕ) → Ensures (λ n s'. Moved s 0 s' × (n ≡ length s')) (remaining s)
unfolding remaining
remaining_moves s = record { holds = (omega arith, refl) }

-- A test that fails with an error or goes on.
pub fail-or :
    {A : Type 0} {Q : A → List ℕ → Type 0}
    → (c : Bool) (e : Error) (m : Decoder A) (s : List ℕ) → Ensures Q (m s)
    → Ensures Q ((if c then fail e else m) s)
fail-or true e m s h = record { holds = tt }
fail-or false e m s h = h

pub bitmap_words_moves :
    (len : ℕ) (s : List ℕ)
    → Ensures (λ n s'. Moved s 0 s' × (n ≡ len * 4) × (n ≤ length s')) (require_bitmap_words len s)
unfolding require_bitmap_words
bitmap_words_moves len s =
    Ensures-lift (λ n s'. Moved s 0 s' × (n ≡ len * 4)) (ok_or (checked_mul len 4) Error.xdr) s
      (λ e. ground arith) (λ n e. (omega arith, ground arith))
    ▹ λ n s1 h1. remaining_moves s1 ▹ λ left s2 h2. elim (Bool-cases (ltb left n)) [
      | inl t ↦ rw t (record { holds = tt })
      | inr t ↦ rw t (record { holds = (omega arith, omega arith, ground arith) })
    ]

module _ ⦃b : ByteBuf⦄ where
  pub skip_opaque_moves : (s : List ℕ) → Ensures (λ _ s'. length s' + 4 ≤ length s) (skip_opaque s)
  skip_opaque_moves s =
      rw (skip_opaque-read_opaque s)
        (read_opaque_moves s ▹ λ v s1 h1. record { holds = omega arith })

  pub sequence_data_moves : (s : List ℕ) → Ensures (Shrinks s) (skip_sequence_data s)
  unfolding skip_sequence_data
  sequence_data_moves s = Ensures-weaken _ (skip_bytes_moves 36 s) λ _ s1 h1. omega arith

  pub file_handle_moves :
      (s : List ℕ)
      → Ensures (λ v s'. (length s' ≤ length s) × (length v ≤ 128)) (decode_file_handle s)
  unfolding decode_file_handle
  file_handle_moves s = read_opaque_moves s ▹ λ v s1 h1. elim (Bool-cases (ltb 128 (length v))) [
    | inl t ↦ rw t (record { holds = tt })
    | inr t ↦ rw t (record { holds = (omega arith, ground arith) })
  ]

  pub read_data_moves : (s : List ℕ) → Ensures (Shrinks s) (decode_read_data s)
  unfolding decode_read_data
  read_data_moves s = read_bool_and_opaque_moves s ▹ λ v s1 h1. record { holds = omega arith }

  pub write_data_moves : (s : List ℕ) → Ensures (Shrinks s) (decode_write_data s)
  unfolding decode_write_data stability_from_raw
  write_data_moves s = read_u32_pair_and_bytes_moves 8 s ▹ λ v s1 h1.
      Ensures-lift (λ _ s'. Moved s1 0 s') (stability_from_raw v.1) s1 (λ e. ground arith)
        (λ _ _. omega arith)
      ▹ λ c s2 h2. record { holds = omega arith }

  pub stateid_moves :
      (s : List ℕ) → Ensures (λ v s'. Moved s 16 s' × (length v.other ≡ 12)) (decode_stateid s)
  unfolding decode_stateid
  stateid_moves s =
      read_u32_and_bytes_moves 12 s ▹ λ v s1 h1. record { holds = (omega arith, h1.2) }

  pub skip_stateid_moves : (s : List ℕ) → Ensures (Shrinks s) (skip_stateid s)
  unfolding skip_stateid
  skip_stateid_moves s = Ensures-weaken _ (skip_bytes_moves stateid_len s) λ _ s1 h1. omega arith

  pub change_info_moves : (s : List ℕ) → Ensures (Shrinks s) (skip_change_info s)
  unfolding skip_change_info
  change_info_moves s = read_bool_and_skip_moves 16 s ▹ λ v s1 h1. record { holds = omega arith }

  pub bitmap_after_len_moves :
      (len : ℕ) (s : List ℕ) → Ensures (Shrinks s) (skip_bitmap_after_len len s)
  unfolding skip_bitmap_after_len
  bitmap_after_len_moves len s = bitmap_words_moves len s ▹ λ n s1 h1.
      Ensures-weaken _ (skip_moves n s1 (omega arith)) λ _ s2 h2. omega arith

  pub skip_bitmap_moves : (s : List ℕ) → Ensures (Shrinks s) (skip_bitmap s)
  unfolding skip_bitmap
  skip_bitmap_moves s = read_u32_moves s ▹ λ len s1 h1.
      Ensures-weaken _ (bitmap_after_len_moves len s1) λ _ s2 h2. omega arith

  pub fattr_moves : (s : List ℕ) → Ensures (Shrinks s) (skip_fattr s)
  unfolding skip_fattr
  fattr_moves s = skip_bitmap_moves s ▹ λ _ s2 h2.
      Ensures-weaken _ (skip_opaque_moves s2) λ _ s3 h3. omega arith

  delegation_why_moves : (why : ℕ) (s : List ℕ) → Ensures (Shrinks s) (delegation_why why s)
  unfolding delegation_why
  delegation_why_moves why s = elim (Bool-cases (will_signal why)) [
    | inl t ↦ rw t (read_bool_moves s ▹ λ v s1 h1. record { holds = omega arith })
    | inr t ↦ rw t (record { holds = omega arith })
  ]

  open_delegation_moves : (s : List ℕ) → Ensures (Shrinks s) (decode_open_delegation s)
  unfolding decode_open_delegation
  open_delegation_moves s = read_u32_moves s ▹ λ kind s1 h1. elim (Bool-cases (kind == 0)) [
    | inl t ↦ rw t (record { holds = omega arith })
    | inr t ↦ rw t (elim (Bool-cases (kind == 3)) [
      | inl u ↦ rw u (
          read_u32_moves s1 ▹ λ why s2 h2.
          Ensures-weaken _ (delegation_why_moves why s2) λ _ s3 h3. omega arith)
      | inr u ↦ rw u (elim (Bool-cases (kind == 1 || kind == 2)) [
        | inl w ↦ rw w (record { holds = tt })
        | inr w ↦ rw w (record { holds = tt })
      ])
    ])
  ]

  pub open_stateid_moves : (s : List ℕ) → Ensures (Shrinks s) (decode_open_stateid s)
  unfolding decode_open_stateid
  open_stateid_moves s = stateid_moves s ▹ λ id s1 h1. change_info_moves s1 ▹ λ _ s2 h2.
      read_u32_pair_moves s2 ▹ λ w s3 h3. bitmap_after_len_moves w.1 s3 ▹ λ _ s4 h4.
      open_delegation_moves s4 ▹ λ _ s5 h5. elim (Bool-cases (bit_and w.0 2 == 0)) [
        | inl t ↦ rw t (record { holds = omega arith })
        | inr t ↦ rw t (record { holds = tt })
      ]
