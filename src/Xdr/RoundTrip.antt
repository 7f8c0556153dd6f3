-- ===== src/Xdr/RoundTrip.antt =====
-- What src/xdr.rs writes, it reads back; and skipping a value is reading it and dropping it.
use nfs_crust.Prelude.{
  ℕ, ◌+◌, ◌≤◌, ◌<◌, ◌≡◌, refl, sym, false, List, [], ◌++◌, append_assoc, arith, length, take, drop,
  replicate, length-append, length-replicate, take-append, drop-append, length-drop, drop-drop, ltb,
  ge→ltb, ltb→lt, lt→ltb, inl, inr, Bool-cases, ==_iff, ◌==◌, if◌then◌else◌,
}
use nfs_crust.Prelude.Words.{be, length-be, u32_limit, u64_limit}
use nfs_crust.Result.{Result, ok, err, panic}
use nfs_crust.Result.Action.{◌>>=◌, ◌>>◌, lift, pure, and_then, Post}
use nfs_crust.Error.{Error}
use nfs_crust.Xdr.ByteBuf.{ByteBuf}
use nfs_crust.Xdr.Length.{xdr_padding, opaque_padded_len}
use nfs_crust.Xdr.Length.Laws.{xdr_padding_lem, opaque_padded_len_lem}
use nfs_crust.Xdr.Encoder.{put_opaque}
use nfs_crust.Xdr.Encoder.Format.{opaque_format, put_opaque-format}
use nfs_crust.Xdr.Decoder.{
  Decoder, require, read_u32_after_require, read_u64_after_require, skip_bytes_after_require,
  copy_bytes, read_u32, read_u64, read_opaque_bytes, read_opaque, skip_opaque,
}
use nfs_crust.Xdr.Decoder.Moves.{Moved, read_u32_moves}

require_there : (n : ℕ) (s : List ℕ) → n ≤ length s → require n s ≡ ok (tt, s)
unfolding require
require_there n s h = rw (ge→ltb (length s) n h)

require_short : (n : ℕ) (s : List ℕ) → length s < n → require n s ≡ err Error.xdr
unfolding require
require_short n s h = rw (lt→ltb (length s) n h)

fits_after : (u v : List ℕ) (n : ℕ) → length u ≡ n → n ≤ length (u ++ v)
fits_after u v n e = omega (arith, length-append u v)

drop_past : (u rest : List ℕ) (n : ℕ) → length u ≡ n → drop n (u ++ rest) ≡ rest
drop_past u rest n e = rw (sym e) (drop-append u rest)

module _ ⦃b : ByteBuf⦄ where
  pub read_u32-be :
      (v : ℕ) (rest : List ℕ) → v < u32_limit → read_u32 (be 4 v ++ rest) ≡ ok (v, rest)
  unfolding read_u32 read_u32_after_require
  read_u32-be v rest h = rw (
    require_there 4 (be 4 v ++ rest) (fits_after _ _ 4 (length-be 4 v)),
    b.get_u32_reads v rest h,
  )

  pub read_u64-be :
      (v : ℕ) (rest : List ℕ) → v < u64_limit → read_u64 (be 8 v ++ rest) ≡ ok (v, rest)
  unfolding read_u64 read_u64_after_require
  read_u64-be v rest h = rw (
    require_there 8 (be 8 v ++ rest) (fits_after _ _ 8 (length-be 8 v)),
    b.get_u64_reads v rest h,
  )

  copy_there : (n : ℕ) (s : List ℕ) → n ≤ length s → copy_bytes n s ≡ ok (take n s, drop n s)
  unfolding copy_bytes
  copy_there n s h = rw (b.copy_takes n s h)

  skip_there :
      (n : ℕ) (s : List ℕ) → n ≤ length s → skip_bytes_after_require n s ≡ ok (tt, drop n s)
  unfolding skip_bytes_after_require
  skip_there n s h = rw (b.advance_drops n s h, skip_bytes_after_require)

  -- On a buffer that holds the padded value, `read_opaque_bytes` takes the value off.
  read_opaque_bytes_there :
      (n : ℕ) (s : List ℕ)
      → n < u32_limit
      → n + xdr_padding n ≤ length s
      → read_opaque_bytes n s ≡ ok (take n s, drop (n + xdr_padding n) s)
  unfolding read_opaque_bytes
  read_opaque_bytes_there n s h there = elim (Bool-cases (n == 0)) [
    | inl z ↦ rw (z, read_opaque_bytes) (rw ((==_iff n 0).0 z) (unfold xdr_padding in refl))
    | inr p ↦
        rw
          (
            p,
            read_opaque_bytes,
            opaque_padded_len_lem n h,
            require_there (n + xdr_padding n) s there,
            copy_there n s (omega arith),
            skip_there (xdr_padding n) (drop n s) (omega (arith, length-drop n s)),
            drop-drop n (xdr_padding n) s,
          )
          refl
  ]

  read_opaque_bytes-value :
      (v rest : List ℕ)
      → length v < u32_limit
      → read_opaque_bytes (length v) (v ++ (replicate (xdr_padding (length v)) 0 ++ rest))
        ≡ ok (v, rest)
  read_opaque_bytes-value v rest h =
      rw
        (
          read_opaque_bytes_there (length v) (v ++ (replicate pad 0 ++ rest)) h room,
          take-append v (replicate pad 0 ++ rest),
          sym (drop-drop (length v) pad (v ++ (replicate pad 0 ++ rest))),
          drop-append v (replicate pad 0 ++ rest),
          drop_past (replicate pad 0) rest pad (length-replicate pad 0),
        )
        refl
    where
      pad : ℕ
      pad = xdr_padding (length v)

      room : length v + pad ≤ length (v ++ (replicate pad 0 ++ rest))
      room = omega (
        arith,
        length-append v (replicate pad 0 ++ rest),
        length-append (replicate pad 0) rest,
        length-replicate pad (let z : ℕ = 0 in z),
      )

  -- For a value of fewer than 2^32 bytes, `put_opaque` succeeds, and `read_opaque` takes back the
  -- value from what it wrote and leaves whatever follows it.
  pub read_opaque-put_opaque :
      (v rest : List ℕ)
      → length v < u32_limit
      → (enc : List ℕ) × (put_opaque v [] ≡ ok enc) × (read_opaque (enc ++ rest) ≡ ok (v, rest))
  unfolding read_opaque
  read_opaque-put_opaque v rest h = (
    opaque_format v,
    put_opaque-format v [] h,
    rw
        (
          append_assoc (be 4 (length v)) (v ++ replicate (xdr_padding (length v)) 0) rest,
          append_assoc v (replicate (xdr_padding (length v)) 0) rest,
          read_u32-be (length v) _ h,
        )
        (read_opaque_bytes-value v rest h),
  )

  abbrev skip_payload : ℕ → Decoder (Unit {0})
  skip_payload n = do
    skip_len ← lift (opaque_padded_len n)
    if skip_len == 0 then pure tt else do require skip_len; skip_bytes_after_require skip_len

  read_opaque_bytes_short :
      (n : ℕ) (s : List ℕ)
      → n < u32_limit
      → length s < n + xdr_padding n
      → read_opaque_bytes n s ≡ err Error.xdr
  unfolding read_opaque_bytes
  read_opaque_bytes_short n s h short =
      let some_left : (n == 0) ≡ false = ground (arith, xdr_padding_lem n) in
      rw
        (
          some_left,
          read_opaque_bytes,
          opaque_padded_len_lem n h,
          require_short (n + xdr_padding n) s short,
        )
        refl

  skip_payload_short :
      (n : ℕ) (s : List ℕ)
      → n < u32_limit
      → length s < n + xdr_padding n
      → skip_payload n s ≡ err Error.xdr
  skip_payload_short n s h short =
      let some_left : (n + xdr_padding n == 0) ≡ false = ground arith in
      rw (opaque_padded_len_lem n h, some_left, require_short (n + xdr_padding n) s short) refl

  skip_payload_there :
      (n : ℕ) (s : List ℕ)
      → n < u32_limit
      → n + xdr_padding n ≤ length s
      → skip_payload n s ≡ ok (tt, drop (n + xdr_padding n) s)
  skip_payload_there n s h there =
      rw (opaque_padded_len_lem n h) (elim (Bool-cases (n + xdr_padding n == 0)) [
        | inl z ↦ rw (z, (==_iff (n + xdr_padding n) 0).0 z) refl
        | inr p ↦
            rw
              (p, require_there (n + xdr_padding n) s there, skip_there (n + xdr_padding n) s there)
              refl
      ])

  skip_payload-eq :
      (n : ℕ) (s : List ℕ)
      → n < u32_limit
      → skip_payload n s ≡ and_then (read_opaque_bytes n s) (λ _. pure tt)
  skip_payload-eq n s h = elim (Bool-cases (ltb (length s) (n + xdr_padding n))) [
    | inl short ↦
        let l : length s < n + xdr_padding n = ltb→lt _ _ short in
        rw (skip_payload_short n s h l, read_opaque_bytes_short n s h l) refl
    | inr there ↦
        let l : n + xdr_padding n ≤ length s = ground (arith, there) in
        rw (skip_payload_there n s h l, read_opaque_bytes_there n s h l) refl
  ]

  -- Skipping a value is reading it and dropping it: the same errors, and the same rest.
  pub skip_opaque-read_opaque :
      (s : List ℕ) → skip_opaque s ≡ and_then (read_opaque s) (λ _. pure tt)
  unfolding skip_opaque read_opaque
  skip_opaque-read_opaque s = both (read_u32 s) (read_u32_moves s).holds
    where
      both :
          (r : Result Error (ℕ × List ℕ))
          → Post (λ v s'. Moved s 4 s' × (v < u32_limit)) r
          → and_then r skip_payload
            ≡ and_then (and_then r (λ n. read_opaque_bytes n)) (λ _. pure tt)
      both (ok (n, s')) h = skip_payload-eq n s' h.1
      both (err e) h = refl
      both panic h = refl
