-- ===== src/Xdr/Decoder/Moves.antt =====
-- No method of `XdrDecoder` in src/xdr.rs panics, and each moves forward by the size of its value.
use nfs_crust.Prelude.{
  ℕ, ◌+◌, ◌≤◌, ◌<◌, ◌≡◌, List, arith, length, length-drop, length-take, ltb, inl, inr, Bool-cases,
}
use nfs_crust.Prelude.Words.{u32_limit, u64_limit, checked_add}
use nfs_crust.Result.{ok_or}
use nfs_crust.Result.Action.{Ensures, Ensures-lift, ◌▹◌, Ensures-weaken, lift}
use nfs_crust.Error.{Error}
use nfs_crust.Xdr.ByteBuf.{ByteBuf}
use nfs_crust.Xdr.Length.{xdr_padding, opaque_padded_len}
use nfs_crust.Xdr.Decoder.{
  require, checked_len, decode_bool_word, read_u32_after_require, read_u64_after_require,
  skip_bytes_after_require, copy_bytes, read_u32, read_u64, read_u32_pair, read_u32_triple,
  read_u32_and_bytes, read_u32_pair_and_bytes, read_bool, read_bool_and_skip, read_bytes,
  skip_bytes,
}

-- `n` bytes fewer are left.
abbrev pub Moved : List ℕ → ℕ → List ℕ → Type 0
Moved s n s' = length s' + n ≡ length s

pub require_moves :
    (n : ℕ) (s : List ℕ) → Ensures (λ _ s'. Moved s 0 s' × (n ≤ length s')) (require n s)
unfolding require
require_moves n s = elim (Bool-cases (ltb (length s) n)) [
  | inl t ↦ rw (t, require) (record { holds = tt })
  | inr t ↦ rw (t, require) (record { holds = (omega arith, ground arith) })
]

pub checked_len_moves :
    (a b : ℕ) (s : List ℕ) → Ensures (λ n s'. Moved s 0 s' × (n ≡ a + b)) (checked_len a b s)
unfolding checked_len
checked_len_moves a b s =
    Ensures-lift _ (ok_or (checked_add a b) Error.xdr) s (λ e. ground arith)
      λ n e. (omega arith, ground arith)

pub padded_moves :
    (len : ℕ) (s : List ℕ)
    → Ensures (λ n s'. Moved s 0 s' × (n ≡ len + xdr_padding len)) (lift (opaque_padded_len len) s)
unfolding opaque_padded_len
padded_moves len s =
    Ensures-lift _ (opaque_padded_len len) s (λ e. ground arith) λ n e. (omega arith, ground arith)

pub bool_word_moves :
    (w : ℕ) (s : List ℕ) → Ensures (λ _ s'. Moved s 0 s') (lift (decode_bool_word w) s)
unfolding decode_bool_word
bool_word_moves w s = Ensures-lift _ (decode_bool_word w) s (λ e. ground arith) λ v e. omega arith

module _ ⦃b : ByteBuf⦄ where
  pub u32_moves :
      (s : List ℕ)
      → 4 ≤ length s
      → Ensures (λ v s'. Moved s 4 s' × (v < u32_limit)) (read_u32_after_require s)
  unfolding read_u32_after_require
  u32_moves s h =
      let (v, bound, e) = b.get_u32_takes s h in
      rw e (record { holds = omega (arith, length-drop 4 s) })

  pub u64_moves :
      (s : List ℕ)
      → 8 ≤ length s
      → Ensures (λ v s'. Moved s 8 s' × (v < u64_limit)) (read_u64_after_require s)
  unfolding read_u64_after_require
  u64_moves s h =
      let (v, bound, e) = b.get_u64_takes s h in
      rw e (record { holds = omega (arith, length-drop 8 s) })

  pub skip_moves :
      (n : ℕ) (s : List ℕ)
      → n ≤ length s
      → Ensures (λ _ s'. Moved s n s') (skip_bytes_after_require n s)
  unfolding skip_bytes_after_require
  skip_moves n s h =
      rw (b.advance_drops n s h, skip_bytes_after_require)
        (record { holds = omega (arith, length-drop n s) })

  pub copy_moves :
      (n : ℕ) (s : List ℕ)
      → n ≤ length s
      → Ensures (λ v s'. Moved s n s' × (length v ≡ n)) (copy_bytes n s)
  unfolding copy_bytes
  copy_moves n s h =
      rw (b.copy_takes n s h) (record { holds = omega (arith, length-drop n s, length-take n s) })

  pub read_u32_moves : (s : List ℕ) → Ensures (λ v s'. Moved s 4 s' × (v < u32_limit)) (read_u32 s)
  unfolding read_u32
  read_u32_moves s = require_moves 4 s ▹ λ _ s1 h1.
      Ensures-weaken _ (u32_moves s1 (omega arith)) λ v s2 h2. omega arith

  pub read_u64_moves : (s : List ℕ) → Ensures (λ v s'. Moved s 8 s' × (v < u64_limit)) (read_u64 s)
  unfolding read_u64
  read_u64_moves s = require_moves 8 s ▹ λ _ s1 h1.
      Ensures-weaken _ (u64_moves s1 (omega arith)) λ v s2 h2. omega arith

  pub read_u32_pair_moves :
      (s : List ℕ)
      → Ensures (λ v s'. Moved s 8 s' × (v.0 < u32_limit) × (v.1 < u32_limit)) (read_u32_pair s)
  unfolding read_u32_pair
  read_u32_pair_moves s = require_moves 8 s ▹ λ _ s1 h1. u32_moves s1 (omega arith) ▹ λ x s2 h2.
      u32_moves s2 (omega arith) ▹ λ y s3 h3. record { holds = omega arith }

  pub read_u32_triple_moves : (s : List ℕ) → Ensures (λ _ s'. Moved s 12 s') (read_u32_triple s)
  unfolding read_u32_triple
  read_u32_triple_moves s = require_moves 12 s ▹ λ _ s1 h1. u32_moves s1 (omega arith) ▹ λ x s2 h2.
      u32_moves s2 (omega arith) ▹ λ y s3 h3.
      u32_moves s3 (omega arith) ▹ λ z s4 h4. record { holds = omega arith }

  pub read_u32_and_bytes_moves :
      (n : ℕ) (s : List ℕ)
      → Ensures
          (λ v s'. Moved s (4 + n) s' × (v.0 < u32_limit) × (length v.1 ≡ n))
          (read_u32_and_bytes n s)
  unfolding read_u32_and_bytes
  read_u32_and_bytes_moves n s = checked_len_moves 4 n s ▹ λ t s0 h0.
      require_moves t s0 ▹ λ _ s1 h1. u32_moves s1 (omega arith) ▹ λ w s2 h2.
      copy_moves n s2 (omega arith) ▹ λ v s3 h3. record { holds = omega arith }

  pub read_u32_pair_and_bytes_moves :
      (n : ℕ) (s : List ℕ)
      → Ensures (λ v s'. Moved s (8 + n) s' × (length v.2 ≡ n)) (read_u32_pair_and_bytes n s)
  unfolding read_u32_pair_and_bytes
  read_u32_pair_and_bytes_moves n s = checked_len_moves 8 n s ▹ λ t s0 h0.
      require_moves t s0 ▹ λ _ s1 h1. u32_moves s1 (omega arith) ▹ λ x s2 h2.
      u32_moves s2 (omega arith) ▹ λ y s3 h3.
      copy_moves n s3 (omega arith) ▹ λ v s4 h4. record { holds = omega arith }

  pub read_bool_moves : (s : List ℕ) → Ensures (λ _ s'. Moved s 4 s') (read_bool s)
  unfolding read_bool
  read_bool_moves s =
      read_u32_moves s ▹ λ w s1 h1. Ensures-weaken _ (bool_word_moves w s1) λ v s2 h2. omega arith

  pub read_bool_and_skip_moves :
      (n : ℕ) (s : List ℕ) → Ensures (λ _ s'. Moved s (4 + n) s') (read_bool_and_skip n s)
  unfolding read_bool_and_skip
  read_bool_and_skip_moves n s = checked_len_moves 4 n s ▹ λ t s0 h0.
      require_moves t s0 ▹ λ _ s1 h1. u32_moves s1 (omega arith) ▹ λ w s2 h2.
      bool_word_moves w s2 ▹ λ out s3 h3.
      skip_moves n s3 (omega arith) ▹ λ _ s4 h4. record { holds = omega arith }

  pub read_bytes_moves :
      (n : ℕ) (s : List ℕ) → Ensures (λ v s'. Moved s n s' × (length v ≡ n)) (read_bytes n s)
  unfolding read_bytes
  read_bytes_moves n s = require_moves n s ▹ λ _ s1 h1.
      Ensures-weaken _ (copy_moves n s1 (omega arith)) λ v s2 h2. omega arith

  pub skip_bytes_moves : (n : ℕ) (s : List ℕ) → Ensures (λ _ s'. Moved s n s') (skip_bytes n s)
  unfolding skip_bytes
  skip_bytes_moves n s = require_moves n s ▹ λ _ s1 h1.
      Ensures-weaken _ (skip_moves n s1 (omega arith)) λ _ s2 h2. omega arith
