-- ===== src/Client/Reads/Whole.antt =====
-- src/client.rs: the output of `read_handle_to_bytes_pipelined_into`.
use mathlib.Core.Path.{subst}
use nfs_crust.Prelude.{
  ℕ, ◌≤◌, ◌<◌, ◌+◌, ◌-◌, ◌≡◌, ◌⊎◌, inl, inr, refl, ap, sym, ◌∙◌, Bool, true, false, not, ◌&&◌, ◌==◌,
  Option, none, some, List, [], ◌∷◌, ◌++◌, if◌then◌else◌, length, take, drop, take-all, length-drop,
  All, arith, Bool-cases, ltb,
}
use nfs_crust.Prelude.Words.{u32_limit, u64_limit}
use nfs_crust.Result.{Result, ok, err}
use nfs_crust.Error.{Error}
use nfs_crust.Client.Reads.{ReadTaskOutput}
use nfs_crust.Client.Reads.Emit.{
  PipelinedEmit, is_some, eof_observed, can_schedule_more, any_beyond, is_short, finish_without,
  finish_read,
}
use nfs_crust.Client.Reads.Pipeline.{Pipeline, ReadRequirements, init, next_request, Reach}
use nfs_crust.Client.Reads.Removal.{total}
use nfs_crust.Client.Reads.Sound.{IsBounded}
use nfs_crust.Client.Reads.Cover.{below, covers, within}
use nfs_crust.Client.Reads.Schedule.{Scheduled, next_range-Scheduled}
use nfs_crust.Client.Reads.Complete.{Counted, Inv, start-Inv, Reach-Inv}

-- A queued range with bytes at an offset, and none that begins there, has bytes before it.
not-queued :
    (x : ℕ) (reads : List ReadTaskOutput)
    → All (λ read. (read.offset == x) ≡ false) reads
    → ((y : ℕ) → y < x → total (within y) reads ≡ 0)
    → total (within x) reads ≡ 0
not-queued x [] h none_before = refl
not-queued x (read ∷ reads) h none_before =
    let rest = not-queued x reads h.1 (λ y lt. omega (arith, none_before y lt)) in
    let here : within x read ≡ 0 = elim (Bool-cases (ltb read.offset x)) [
      | inl t ↦
          (let z : covers read.offset (read.offset, length read.bytes) ≡ 0 =
              omega (arith, none_before read.offset (ground arith)) in
            ground (arith, z))
      | inr t ↦ ground (arith, h.0)
    ] in
    omega arith

passed :
    {A E : Type 0} (beyond short : Bool) (e : E) (r : Result E A) (a : A)
    → (if beyond then err e else if short then err e else r) ≡ ok a
    → short ≡ false
passed beyond short e r a h = ground arith

-- What a success of `finish` says.
finished :
    (e : PipelinedEmit)
    → finish_read e ≡ ok tt
    → (e.first_error ≡ none) × (is_short e.eof_at e.eof_upper_bound e.next_offset ≡ false)
unfolding finish_read
finished e h = onward e.first_error refl h
  where
    onward :
        (error : Option Error)
        → e.first_error ≡ error
        → finish_without error e ≡ ok tt
        → (e.first_error ≡ none) × (is_short e.eof_at e.eof_upper_bound e.next_offset ≡ false)
    onward (some error) k h = ground arith
    onward none k h = (k, passed (any_beyond e.eof_at e.completed) _ Error.protocol _ tt h)

-- The end of the file is reached, or nothing about it is known.
known :
    (file : List ℕ) (eof_at bound : Option ℕ) (next : ℕ)
    → IsBounded file eof_at
    → IsBounded file bound
    → is_short eof_at bound next ≡ false
    → (length file ≤ next) ⊎ ((eof_at ≡ none) × (is_some bound ≡ false))
known file (some m) bound next h k s = inl (ground arith)
known file none (some m) next h k s = inl (ground arith)
known file none none next h k s = inr (refl, refl)

stops :
    {A : Type 0} (b : Bool) (r : Option A) → b ≡ true → (if b then r else none) ≡ none → r ≡ none
stops true r h k = k
stops false r h k = ground arith

module _ (file out : List ℕ) (start end size depth : ℕ) (fits : size < u32_limit)
    (positive : 0 < size) where
  -- Nothing can be sent any more.
  nothing_owed :
      (p : Pipeline)
      → 0 < depth
      → p.reads ≡ []
      → next_request depth p ≡ none
      → p.emit.first_error ≡ none
      → Inv file out start end size p
      → Scheduled start end size p.scheduler (eof_observed p.emit) none
  unfolding next_request can_schedule_more
  nothing_owed p deep reads stopped k v =
      let more : (not (is_some p.emit.first_error) && ltb (length p.reads) depth) ≡ true =
        rw (k, reads) (ground (arith, deep)) in
      subst (Scheduled start end size p.scheduler (eof_observed p.emit))
        (stops (not (is_some p.emit.first_error) && ltb (length p.reads) depth) _ more stopped)
        (next_range-Scheduled start end size fits positive p.scheduler (eof_observed p.emit)
          v.ranged)

  no_hole :
      (p : Pipeline)
      → p.reads ≡ []
      → p.scheduler.gaps ≡ []
      → Counted file out start end size p
      → p.emit.eof_at ≡ none
      → p.emit.first_error ≡ none
      → end ≤ p.scheduler.next_offset
      → (length file ≤ p.emit.next_offset) ⊎ (end ≤ p.emit.next_offset)
  no_hole p reads gaps c unknown k far = elim (Bool-cases (ltb p.emit.next_offset (length file))) [
    | inl t ↦ elim (Bool-cases (ltb p.emit.next_offset end)) [
      | inl u ↦ absurd (covered (ground arith) (ground arith))
      | inr u ↦ inr (ground arith)
    ]
    | inr t ↦ inl (ground arith)
  ]
    where
      tallied :
          (y : ℕ)
          → y < length file
          → below y p.emit.next_offset + total (within y) p.emit.completed
            ≡ below y p.scheduler.next_offset
      tallied y lt =
          omega (arith, c.tally y lt, ap (total (covers y)) gaps, ap (total (covers y)) reads)

      none_before :
          p.emit.next_offset < length file
          → (y : ℕ) → y < p.emit.next_offset
          → total (within y) p.emit.completed ≡ 0
      none_before h y lt = ground (arith, tallied y (omega arith))

      covered : p.emit.next_offset < length file → p.emit.next_offset < end → ⊥
      covered h u =
          let nothing =
            not-queued p.emit.next_offset p.emit.completed (c.drained k unknown) (none_before h) in
          ground (arith, nothing, tallied p.emit.next_offset h)

  reaches :
      (p : Pipeline)
      → 0 < depth
      → p.reads ≡ []
      → next_request depth p ≡ none
      → finish_read p.emit ≡ ok tt
      → Inv file out start end size p
      → (length file ≤ p.emit.next_offset) ⊎ (end ≤ p.emit.next_offset)
  unfolding eof_observed
  reaches p deep reads stopped done v =
      let (k, long) = finished p.emit done in
      let (gaps, owed) = nothing_owed p deep reads stopped k v in
      elim (known file p.emit.eof_at p.emit.eof_upper_bound p.emit.next_offset v.sound.exact
        v.sound.upper long) [
          | inl h ↦ inl h
          | inr h ↦ elim owed [
            | inl e ↦ absurd (ground arith)
            | inr far ↦ no_hole p reads gaps (v.counted k) (h.0) k far
          ]
        ]

  both :
      (m n : ℕ)
      → length file ≤ m
      → length file ≤ n
      → take (m - start) (drop start file) ≡ take (n - start) (drop start file)
  both m n h k =
      take-all (m - start) (drop start file) (omega (arith, length-drop start file))
      ∙ sym (take-all (n - start) (drop start file) (omega (arith, length-drop start file)))

  -- What is written past the range lies past the file.
  stays :
      (p : Pipeline)
      → p.reads ≡ []
      → p.scheduler.gaps ≡ []
      → p.emit.first_error ≡ none
      → Inv file out start end size p
      → (length file ≤ end) ⊎ (p.emit.next_offset ≤ end)
  stays p reads gaps k v = elim (Bool-cases (ltb end (length file))) [
    | inl t ↦ inr (ground (arith, v.ranged.ended, (v.counted k).tally end (ground arith)))
    | inr t ↦ inl (ground arith)
  ]

  whole :
      (p : Pipeline)
      → (length file ≤ p.emit.next_offset) ⊎ (end ≤ p.emit.next_offset)
      → (length file ≤ end) ⊎ (p.emit.next_offset ≤ end)
      → take (p.emit.next_offset - start) (drop start file) ≡ take (end - start) (drop start file)
  whole p (inl h) (inl k) = both p.emit.next_offset end h k
  whole p (inl h) (inr k) = both p.emit.next_offset end h (omega arith)
  whole p (inr h) (inl k) = both p.emit.next_offset end (omega arith) k
  whole p (inr h) (inr k) = ap (λ n. take (n - start) (drop start file)) (omega arith)

module _ (file out : List ℕ) (start total_len size depth : ℕ)
    (requirements : ReadRequirements) where
  -- A pipelined read of `total_len` bytes from `start`, answered by a server that holds `file`, in any
  -- order, with replies as short as it likes and errors where it likes: if nothing is left to send or
  -- to wait for, and `finish` reports success, then the output has grown by exactly the bytes of the
  -- file in the range, as many as the file has there. The range ends below 2 ^ 64, requests are at
  -- least one byte and below 2 ^ 32, and at least one request may be under way.
  pub pipelined_read-Reach :
      (p : Pipeline)
      → start + total_len < u64_limit
      → size < u32_limit
      → 0 < size
      → 0 < depth
      → Reach file depth (init out start total_len size requirements) p
      → p.reads ≡ []
      → next_request depth p ≡ none
      → finish_read p.emit ≡ ok tt
      → p.emit.out ≡ out ++ take total_len (drop start file)
  pipelined_read-Reach p range fits positive deep run reads stopped done =
      let end = start + total_len in
      let v =
        Reach-Inv file out start end size fits positive depth
          (start-Inv file out start total_len size depth requirements range) run in
      let k = (finished p.emit done).0 in
      let gaps =
        (nothing_owed file out start end size depth fits positive p deep reads stopped k v).0 in
      v.sound.written
      ∙ ap (λ t. out ++ t)
          (whole file out start end size depth fits positive p
              (reaches file out start end size depth fits positive p deep reads stopped done v)
              (stays file out start end size depth fits positive p reads gaps k v)
            ∙ ap (λ n. take n (drop start file)) (omega arith))
