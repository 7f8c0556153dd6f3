-- ===== src/Client/Reads/Answers.antt =====
-- src/client.rs: `read_range_anonymous` and `read_handle_to_bytes` return the contents of the range.
use nfs_crust.Prelude.{
  ℕ, suc, ◌≤◌, ◌<◌, ◌+◌, ◌-◌, ◌%◌, ◌≡◌, ◌≢◌, refl, Bool, true, false, ◌||◌, ◌==◌, ==_iff, none,
  List, [], length, arith, leb, if◌then◌else◌, Bool-cases, inl, inr,
}
use nfs_crust.Prelude.Words.{u32_limit, u64_limit}
use nfs_crust.Result.{Result, ok, err, panic}
use nfs_crust.Result.Try.{◌>>=◌, ◌>>◌}
use nfs_crust.Error.{Error}
use nfs_crust.Nfs4.Body.{ReadData}
use nfs_crust.Client.Reads.{validate_read_reply, ensure_buffered_read_within_limit}
use nfs_crust.Client.Reads.Cover.{limit-ne-panic}
use nfs_crust.Client.Reads.Pipeline.{IsHonest, ReadRequirements}
use nfs_crust.Client.Reads.Sequential.{Replies, read_sequential_into}
use nfs_crust.Client.Reads.Contents.{IsRead, ended, read_sequential_into-IsRead}
use nfs_crust.Client.Reads.Loop.{read_pipelined_into, read_pipelined_into-IsRead}
use nfs_crust.Client.Reads.Range.{
  read_needs_retry, first_reply, whole_reply, read_handle_single_chunk_or_continue,
  read_handle_to_bytes, read_handle_to_bytes_after_prefix, read_range_anonymous,
}
use nfs_crust.Client.Reads.First.{
  IsFirst, IsLimited, validate_read_reply-IsLimited, continued, whole_bytes, whole-IsRead,
}

module _ (file : List ℕ) (session : Replies) (chunk_size granularity depth : ℕ)
    (requirements : ReadRequirements) (choose : ℕ → ℕ)
    (honest : (i offset count : ℕ) → IsHonest file offset (session i offset count)) where
  first_reply-IsFirst :
      (offset count requests : ℕ)
      → IsFirst file offset count (first_reply session requirements offset count requests)
  first_reply-IsFirst offset count requests =
      replied (session requests offset count) (honest requests offset count)
    where
      limited :
          (read : ReadData) (r : Result Error Unit)
          → r ≢ panic
          → IsHonest file offset (ok read)
          → length read.bytes ≤ count
          → IsFirst file offset count (r >> ok read)
      limited read (ok a) h true_to_file fits = (true_to_file, fits)
      limited read (err e) h true_to_file fits = tt
      limited read panic h true_to_file fits = absurd (h refl)

      checked :
          (read : ReadData) (r : Result Error Unit)
          → IsLimited read count r
          → IsHonest file offset (ok read)
          → IsFirst file offset count (do
            r
            ensure_buffered_read_within_limit 0
                (length read.bytes)
                requirements.expected_len
                requirements.limit
            ok read)
      checked read (ok a) h true_to_file =
          limited read _ (limit-ne-panic 0 _ requirements.expected_len requirements.limit)
            true_to_file h
      checked read (err e) h true_to_file = tt
      checked read panic h true_to_file = absurd h

      replied :
          (r : Result Error ReadData)
          → IsHonest file offset r
          → IsFirst file offset count (do
            read ← r
            validate_read_reply read count
            ensure_buffered_read_within_limit 0
                (length read.bytes)
                requirements.expected_len
                requirements.limit
            ok read)
      replied (ok read) h = checked read _ (validate_read_reply-IsLimited read count) h
      replied (err e) h = tt
      replied panic h = absurd h

  module _ (fits : chunk_size < u32_limit) (positive : 0 < chunk_size)
      (granular : granularity < u32_limit) (grains : 0 < granularity) where
    -- The first reply, and then either the end or another reader.
    first_then :
        (offset count len : ℕ) (r : Result Error ReadData) (test : ReadData → Bool)
        (rest : ReadData → Result Error (List ℕ)) (whole : ReadData → Result Error (List ℕ))
        → IsFirst file offset count r
        → ((read : ReadData)
            → IsFirst file offset count (ok read)
            → test read ≡ true
            → IsRead file [] offset len (rest read))
        → ((read : ReadData)
            → IsFirst file offset count (ok read)
            → test read ≡ false
            → IsRead file [] offset len (whole read))
        → IsRead file [] offset len (do read ← r; if test read then rest read else whole read)
    first_then offset count len (ok read) test rest whole h f g = elim (Bool-cases (test read)) [
      | inl t ↦ rw t (f read h t)
      | inr t ↦ rw t (g read h t)
    ]
    first_then offset count len (err e) test rest whole h f g = tt
    first_then offset count len panic test rest whole h f g = absurd h

    sequential :
        (out : List ℕ) (offset remaining requests : ℕ)
        → IsRead file out offset remaining
            (read_sequential_into session chunk_size requirements out offset remaining requests)
    sequential =
        read_sequential_into-IsRead file session chunk_size requirements honest fits positive

    pipelined :
        (out : List ℕ) (offset remaining requests : ℕ)
        → offset + remaining < u64_limit
        → leb depth 1 ≡ false
        → IsRead file out offset remaining (
            read_pipelined_into session choose depth granularity requirements out offset remaining
              requests)
    pipelined out offset remaining requests range deep =
        read_pipelined_into-IsRead file session choose depth honest granularity requirements out
          offset remaining range granular grains requests (ground arith)

    single-IsRead :
        (offset count requests : ℕ)
        → IsRead file [] offset count (
            read_handle_single_chunk_or_continue session chunk_size granularity depth requirements
              choose offset count requests)
    unfolding read_handle_single_chunk_or_continue read_needs_retry
    single-IsRead offset count requests =
        first_then offset count count _ (λ read. read_needs_retry read count)
          (λ read.
            read_sequential_into session chunk_size requirements read.bytes
              (offset + length read.bytes) (count - length read.bytes) (suc requests))
          (λ read. whole_reply requirements offset read) (first_reply-IsFirst offset count requests)
          (λ read h t. continued file offset count read _ h.0 h.1 (sequential _ _ _ _))
          (λ read h t.
            whole-IsRead file requirements offset count read
              (whole_bytes file offset count read h.0 h.1 t))

    pub read_handle_to_bytes-IsRead :
        (offset remaining requests : ℕ)
        → offset + remaining < u64_limit
        → IsRead file [] offset remaining (
            read_handle_to_bytes session chunk_size granularity depth requirements choose offset
              remaining requests)
    unfolding read_handle_to_bytes
    read_handle_to_bytes-IsRead offset remaining requests range =
        elim (Bool-cases (remaining == 0)) [
          | inl t ↦ rw t (let e : remaining ≡ 0 = (==_iff _ _).0 t in rw e refl)
          | inr t ↦ rw t (elim (Bool-cases (leb remaining granularity)) [
            | inl u ↦ rw u (
                let e : remaining % u32_limit ≡ remaining = ground arith in
                rw e (single-IsRead offset remaining requests))
            | inr u ↦ rw u (elim (Bool-cases (leb depth 1)) [
              | inl w ↦ rw w (sequential [] offset remaining requests)
              | inr w ↦ rw w (pipelined [] offset remaining requests range w)
            ])
          ])
        ]

    second : (a b : Bool) → (a || b) ≡ false → b ≡ false
    second a b h = ground arith

    after_prefix-IsRead :
        (prefix : List ℕ) (offset remaining requests : ℕ)
        → offset + remaining < u64_limit
        → IsRead file prefix offset remaining (
            read_handle_to_bytes_after_prefix session chunk_size granularity depth requirements
              choose prefix offset remaining requests)
    unfolding read_handle_to_bytes_after_prefix
    after_prefix-IsRead prefix offset remaining requests range =
        elim (Bool-cases (leb remaining granularity || leb depth 1)) [
          | inl t ↦ rw t (sequential prefix offset remaining requests)
          | inr t ↦ rw t (
              pipelined prefix offset remaining requests range
                (second (leb remaining granularity) (leb depth 1) t))
        ]

    looked_up :
        (lookup : Result Error Unit) (offset len : ℕ) (r : Result Error (List ℕ))
        → lookup ≢ panic
        → IsRead file [] offset len r
        → IsRead file [] offset len (lookup >> r)
    looked_up (ok a) offset len r h k = k
    looked_up (err e) offset len r h k = tt
    looked_up panic offset len r h k = absurd (h refl)

    short_range :
        (lookup : Result Error Unit) (start requested_len : ℕ)
        → lookup ≢ panic
        → start + requested_len < u64_limit
        → IsRead file [] start requested_len (do
          read ← first_reply session requirements start requested_len 0
          if read_needs_retry read requested_len
              then (lookup
                  >> read_handle_to_bytes session chunk_size granularity depth requirements choose
                      start requested_len 1)
              else whole_reply requirements start read)
    unfolding read_needs_retry
    short_range lookup start requested_len h range =
        first_then start requested_len requested_len _ (λ read. read_needs_retry read requested_len)
          (λ read.
            lookup
            >> read_handle_to_bytes session chunk_size granularity depth requirements choose start
                requested_len 1)
          (λ read. whole_reply requirements start read) (first_reply-IsFirst start requested_len 0)
          (λ read k t.
            looked_up lookup start requested_len _ h
              (read_handle_to_bytes-IsRead start requested_len 1 range))
          (λ read k t.
            whole-IsRead file requirements start requested_len read
              (whole_bytes file start requested_len read k.0 k.1 t))

    long_range :
        (start requested_len : ℕ)
        → granularity < requested_len
        → start + requested_len < u64_limit
        → IsRead file [] start requested_len (do
          read ← first_reply session requirements start granularity 0
          if read.eof
              then whole_reply requirements start (record read { eof = true })
              else read_handle_to_bytes_after_prefix session chunk_size granularity depth
                  requirements choose read.bytes
                  (start + length read.bytes)
                  (requested_len - length read.bytes)
                  1)
    long_range start requested_len h range =
        first_then start granularity requested_len _ (λ read. read.eof)
          (λ read. whole_reply requirements start (record read { eof = true }))
          (λ read.
            read_handle_to_bytes_after_prefix session chunk_size granularity depth requirements
              choose read.bytes (start + length read.bytes) (requested_len - length read.bytes) 1)
          (first_reply-IsFirst start granularity 0)
          (λ read k t.
            whole-IsRead file requirements start requested_len (record read { eof = true })
              (ended file
                (record {
                  out = [];
                  offset = start;
                  remaining = requested_len;
                  observed_eof = none;
                  requests = 0;
                })
                read k.0.0 (omega (arith, k.1)) (k.0.1 t)))
          (λ read k t.
            continued file start requested_len read _ k.0 (omega (arith, k.1))
              (after_prefix-IsRead _ _ _ _ (omega (arith, k.1))))

    -- A read of a range from a server that holds `file`, whichever way it goes on after the first
    -- reply, does not panic, and if it succeeds, it returns exactly the bytes of the file in the range,
    -- as many as the file has there. Requests are at least one byte and below 2 ^ 32, the range ends
    -- below 2 ^ 64, and looking up the handle does not panic.
    pub read_range_anonymous-IsRead :
        (lookup : Result Error Unit) (start requested_len : ℕ)
        → lookup ≢ panic
        → start + requested_len < u64_limit
        → IsRead file [] start requested_len (
            read_range_anonymous session chunk_size granularity depth requirements choose lookup
              start requested_len)
    unfolding read_range_anonymous read_needs_retry
    read_range_anonymous-IsRead lookup start requested_len h range =
        elim (Bool-cases (leb requested_len granularity)) [
          | inl t ↦ rw t (
              let e : requested_len % u32_limit ≡ requested_len = ground arith in
              rw e (short_range lookup start requested_len h range))
          | inr t ↦ rw t (long_range start requested_len (ground arith) range)
        ]
