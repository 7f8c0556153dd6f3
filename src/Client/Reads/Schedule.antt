-- ===== src/Client/Reads/Schedule.antt =====
-- src/client.rs: the ranges of `ChunkScheduler`, and how a reply divides the range that it answers.
use mathlib.Core.Path.{subst}
use nfs_crust.Prelude.{
  ℕ, ◌≤◌, ◌<◌, ◌+◌, ◌-◌, ◌%◌, min, ◌≡◌, ◌⊎◌, refl, ap, Bool, true, false, not, ◌&&◌, ◌||◌, ◌==◌,
  Option, none, some, List, [], ◌∷◌, if◌then◌else◌, length, All, arith, Bool-cases, inl, inr, ltb,
  leb,
}
use nfs_crust.Prelude.Words.{u32_limit}
use nfs_crust.Client.Reads.{
  ReadTaskOutput, ChunkScheduler, push_gap, pop_gap, next_range, short_read_gap,
}
use nfs_crust.Client.Reads.Removal.{total}
use nfs_crust.Client.Reads.Cover.{below, covers, covers_lem, within}

-- How many bytes are not asked for.
abbrev pub owed : ℕ → ChunkScheduler → ℕ
owed end s = total (λ range. range.1) s.gaps + (end - s.next_offset)

-- A range of at least one byte and at most `size`.
abbrev pub IsSmall : ℕ → ℕ × ℕ → Type 0
IsSmall size range = (0 < range.1) × (range.1 ≤ size)

module _ (start end size : ℕ) where
  pub record Ranged (s : ChunkScheduler) : Type 0 where
    pub small : All (IsSmall size) s.gaps
    pub started : start ≤ s.next_offset
    pub ended : s.next_offset ≤ end
    pub same_end : s.end ≡ end
    pub same_size : s.chunk_size ≡ size

  -- What `next_range` returns: a range that the scheduler owes, or nothing because none is owed.
  abbrev pub Scheduled : ChunkScheduler → Bool → Option ((ℕ × ℕ) × ChunkScheduler) → Type 0
  Scheduled s eof_observed (some (range, s')) =
      Ranged s'
      × IsSmall size range
      × ((x : ℕ)
          → total (covers x) s'.gaps + covers x range + below x s.next_offset
            ≡ total (covers x) s.gaps + below x s'.next_offset)
      × (owed end s' + range.1 ≡ owed end s)
  Scheduled s eof_observed none = (s.gaps ≡ []) × ((eof_observed ≡ true) ⊎ (end ≤ s.next_offset))

module _ (start end size : ℕ) (fits : size < u32_limit) (positive : 0 < size) where
  gap-Scheduled :
      (s : ChunkScheduler) (eof_observed : Bool) (offset len : ℕ) (gaps : List (ℕ × ℕ))
      → s.gaps ≡ (offset, len) ∷ gaps
      → Ranged start end size s
      → Scheduled start end size s eof_observed (pop_gap ((offset, len) ∷ gaps) s eof_observed)
  gap-Scheduled s eof_observed offset len gaps h v =
      let small : All (IsSmall size) ((offset, len) ∷ gaps) =
        subst (All (IsSmall size)) h v.small in
      let whole : min len s.chunk_size % u32_limit ≡ len = omega (arith, v.same_size, small.0) in
      rw whole (
        record {
          small = small.1;
          started = v.started;
          ended = v.ended;
          same_end = v.same_end;
          same_size = v.same_size;
        },
        small.0,
        λ x. omega (arith, ap (total (covers x)) h),
        omega (arith, ap (total (λ range. range.1)) h),
      )

  fresh-Scheduled :
      (s : ChunkScheduler) (eof_observed : Bool)
      → s.gaps ≡ []
      → Ranged start end size s
      → Scheduled start end size s eof_observed (pop_gap [] s eof_observed)
  fresh-Scheduled s eof_observed h v =
      let n = min (s.end - s.next_offset) s.chunk_size in
      elim (Bool-cases (eof_observed || leb s.end s.next_offset)) [
        | inl t ↦ rw t (h, stopped eof_observed t)
        | inr t ↦ rw t (
            let more : s.next_offset < s.end = ground arith in
            let whole : min (s.end - s.next_offset) s.chunk_size % u32_limit
                ≡ min (s.end - s.next_offset) s.chunk_size =
              omega (arith, v.same_size) in
            rw whole (
              record {
                small = v.small;
                started = omega (arith, v.started);
                ended = omega (arith, v.ended, v.same_end);
                same_end = v.same_end;
                same_size = v.same_size;
              },
              (omega (arith, v.same_size), omega (arith, v.same_size)),
              λ x. omega (arith, covers_lem x s.next_offset n),
              omega (arith, v.same_end),
            ))
      ]
    where
      stopped :
          (b : Bool) → (b || leb s.end s.next_offset) ≡ true → (b ≡ true) ⊎ (end ≤ s.next_offset)
      stopped true t = inl refl
      stopped false t = inr (ground (arith, v.same_end))

  pub next_range-Scheduled :
      (s : ChunkScheduler) (eof_observed : Bool)
      → Ranged start end size s
      → Scheduled start end size s eof_observed (next_range s eof_observed)
  unfolding next_range
  next_range-Scheduled s eof_observed v = onward s.gaps refl
    where
      onward :
          (gaps : List (ℕ × ℕ))
          → s.gaps ≡ gaps
          → Scheduled start end size s eof_observed (pop_gap gaps s eof_observed)
      onward [] h = fresh-Scheduled s eof_observed h v
      onward ((offset, len) ∷ gaps) h = gap-Scheduled s eof_observed offset len gaps h v

  -- A reply divides its range into the bytes that it brings and the gap.
  pub push_gap-Ranged :
      (s : ChunkScheduler) (read : ReadTaskOutput)
      → read.requested ≤ size
      → Ranged start end size s
      → Ranged start end size (push_gap s (short_read_gap read))
  unfolding push_gap short_read_gap
  push_gap-Ranged s read h v =
      elim (Bool-cases (not read.eof && ltb 0 (read.requested - length read.bytes))) [
        | inl t ↦ rw t (record {
          small = ((ground arith, ground arith), v.small);
          started = v.started;
          ended = v.ended;
          same_end = v.same_end;
          same_size = v.same_size;
        })
        | inr t ↦ rw t v
      ]

pub push_gap-next :
    (s : ChunkScheduler) (gap : Option (ℕ × ℕ)) → (push_gap s gap).next_offset ≡ s.next_offset
unfolding push_gap
push_gap-next s none = refl
push_gap-next s (some gap) = refl

covers-ended : (x o m n : ℕ) → x < o + m → m ≤ n → covers x (o, m) ≡ covers x (o, n)
covers-ended x o m n h k = ground arith

covers-split : (x o m n : ℕ) → m ≤ n → covers x (o, m) + covers x (o + m, n - m) ≡ covers x (o, n)
covers-split x o m n h = let e : o + m + (n - m) ≡ o + n = omega arith in rw e (ground arith)

some_bytes :
    (eof b : Bool) (len : ℕ) → (not eof && b) ≡ true → ((len == 0) ≡ true → eof ≡ true) → 0 < len
some_bytes true b len t h = ground arith
some_bytes false b len t h = ground arith

-- A checked reply leaves less than it was asked for.
pub push_gap-owed :
    (end : ℕ) (s : ChunkScheduler) (read : ReadTaskOutput)
    → 0 < read.requested
    → ((length read.bytes == 0) ≡ true → read.eof ≡ true)
    → owed end (push_gap s (short_read_gap read)) < owed end s + read.requested
unfolding push_gap short_read_gap
push_gap-owed end s read h ends =
    elim (Bool-cases (not read.eof && ltb 0 (read.requested - length read.bytes))) [
      | inl t ↦ rw t (omega (arith, some_bytes read.eof _ (length read.bytes) t ends))
      | inr t ↦ rw t (omega arith)
    ]

-- Below the end of the file, a reply brings or leaves every byte of its range.
pub push_gap-covers :
    (s : ChunkScheduler) (read : ReadTaskOutput) (x bound : ℕ)
    → length read.bytes ≤ read.requested
    → (read.eof ≡ true → bound ≤ read.offset + length read.bytes)
    → x < bound
    → total (covers x) (push_gap s (short_read_gap read)).gaps + within x read
      ≡ total (covers x) s.gaps + covers x (read.offset, read.requested)
unfolding push_gap short_read_gap
push_gap-covers s read x bound h ends lt = onward read.eof refl
  where
    onward :
        (eof : Bool)
        → read.eof ≡ eof
        → total
              (covers x)
              (push_gap s (
                if not eof && ltb 0 (read.requested - length read.bytes)
                then some (read.offset + length read.bytes, read.requested - length read.bytes)
                else none)).gaps
            + within x read
          ≡ total (covers x) s.gaps + covers x (read.offset, read.requested)
    onward true e = omega (
      arith,
      covers-ended x read.offset (length read.bytes) read.requested (omega (arith, ends e)) h,
    )
    onward false e = elim (Bool-cases (ltb 0 (read.requested - length read.bytes))) [
      | inl t ↦
          rw t (omega (arith, covers-split x read.offset (length read.bytes) read.requested h))
      | inr t ↦
          rw t (let whole : length read.bytes ≡ read.requested = ground arith in rw whole refl)
    ]
