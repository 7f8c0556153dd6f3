-- ===== src/Client/Reads/Complete.antt =====
-- src/client.rs: a pipelined read that succeeds has read the whole range, as far as the file goes.
use mathlib.Core.Path.{subst}
use nfs_crust.Prelude.{
  ℕ, ◌≤◌, ◌<◌, ◌+◌, ◌-◌, ◌≡◌, refl, ap, sym, ◌∙◌, Bool, true, false, not, ◌&&◌, ◌==◌, ==_iff,
  Option, none, some, List, [], ◌∷◌, ◌++◌, length, take, drop, All, arith, Bool-cases, inl, inr,
  ltb, lt→ltb, append-nil, if◌then◌else◌,
}
use nfs_crust.Prelude.Words.{u32_limit, u64_limit}
use nfs_crust.Result.{Result, ok, err, panic}
use nfs_crust.Result.Try.{◌>>◌}
use nfs_crust.Error.{Error}
use nfs_crust.Nfs4.Body.{ReadData}
use nfs_crust.Client.Reads.{
  ReadTaskOutput, ChunkScheduler, new_scheduler, short_read_gap, read_chunk, validate_read_reply,
}
use nfs_crust.Client.Reads.Emit.{new_emit, eof_observed, can_schedule_more, record_error}
use nfs_crust.Client.Reads.Pipeline.{
  IsHonest, Pipeline, ReadRequirements, init, next_request, complete, Step, schedule, answer, Reach,
  here, next,
}
use nfs_crust.Client.Reads.Removal.{All-append, total, total-append}
use nfs_crust.Client.Reads.Sound.{Sound, IsServed, record_read-Sound, record_error-Sound}
use nfs_crust.Client.Reads.Cover.{below, covers, held, record_error-ne-none}
use nfs_crust.Client.Reads.Drain.{IsDrained, record_read-Recorded}
use nfs_crust.Client.Reads.Schedule.{
  IsSmall, Ranged, Scheduled, next_range-Scheduled, push_gap-Ranged, push_gap-covers, push_gap-next,
}

-- A checked reply is no longer than its request, and is empty only at the end of the file.
abbrev pub IsChecked : ReadData → ℕ → Result Error (Unit {0}) → Type 0
IsChecked read count (ok a) =
    (length read.bytes ≤ count) × ((length read.bytes == 0) ≡ true → read.eof ≡ true)
IsChecked read count (err e) = Unit
IsChecked read count panic = ⊥

pub validate_read_reply-IsChecked :
    (read : ReadData) (count : ℕ)
    → 0 < count
    → IsChecked read count (validate_read_reply read count)
unfolding validate_read_reply
validate_read_reply-IsChecked read count h = elim (Bool-cases (ltb count (length read.bytes))) [
  | inl t ↦ rw t tt
  | inr t ↦ rw t (elim (Bool-cases (ltb 0 count && (length read.bytes == 0 && not read.eof))) [
    | inl e ↦ rw e tt
    | inr e ↦ rw e (ground arith, λ n. ended read.eof (length read.bytes == 0) n e)
  ])
]
  where
    ended :
        (eof empty : Bool) → empty ≡ true → (ltb 0 count && (empty && not eof)) ≡ false → eof ≡ true
    ended eof empty n e = ground (arith, lt→ltb 0 count h)

pub requested :
    {A : Type 0} (b : Bool) (r : Option A) (a : A) → (if b then r else none) ≡ some a → r ≡ some a
requested true r a h = h
requested false r a h = ground arith

All-left : {A : Type 0} (P : A → Type 0) (xs ys : List A) → All P (xs ++ ys) → All P xs × All P ys
All-left P [] ys h = (tt, h)
All-left P (x ∷ xs) ys h = let (left, right) = All-left P xs ys h.1 in ((h.0, left), right)

-- The requests that are left when one is answered.
pub left-IsSmall :
    (size : ℕ) (reads before after : List (ℕ × ℕ)) (range : ℕ × ℕ)
    → reads ≡ before ++ range ∷ after
    → All (IsSmall size) reads
    → IsSmall size range × All (IsSmall size) (before ++ after)
left-IsSmall size reads before after range h sent =
    let (left, right) =
      All-left (IsSmall size) before (range ∷ after) (subst (All (IsSmall size)) h sent) in
    (right.0, All-append (IsSmall size) before after left right.1)

pub total-left :
    (f : ℕ × ℕ → ℕ) (reads before after : List (ℕ × ℕ)) (range : ℕ × ℕ)
    → reads ≡ before ++ range ∷ after
    → total f reads ≡ f range + total f (before ++ after)
total-left f reads before after range h =
    ap (total f) h
    ∙ omega (arith, total-append f before (range ∷ after), total-append f before after)

-- What a request owed is written, queued or a gap.
moved :
    (held held' brought gaps gaps' reads reads' range below below' : ℕ)
    → below' ≡ below
    → held + gaps + reads ≡ below
    → held' ≡ held + brought
    → gaps' + brought ≡ gaps + range
    → reads ≡ range + reads'
    → held' + gaps' + reads' ≡ below'
moved held held' brought gaps gaps' reads reads' range below below' h0 h1 h2 h3 h4 = omega arith

module _ (file out : List ℕ) (start end size : ℕ) where
  -- Every offset of the file is written, queued, owed as a gap or asked for, once, up to the next
  -- fresh range.
  pub record Counted (p : Pipeline) : Type 0 where
    pub tally :
        (x : ℕ)
        → x < length file
        → held x p.emit + total (covers x) p.scheduler.gaps + total (covers x) p.reads
          ≡ below x p.scheduler.next_offset
    pub drained : IsDrained p.emit

  pub record Inv (p : Pipeline) : Type 0 where
    pub ranged : Ranged start end size p.scheduler
    pub sound : Sound file out start p.emit
    pub sent : All (IsSmall size) p.reads
    pub counted : p.emit.first_error ≡ none → Counted p

module _ (file out : List ℕ) (start end size : ℕ) (fits : size < u32_limit)
    (positive : 0 < size) where
  abbrev pub Good : Pipeline → Type 0
  Good = Inv file out start end size

  schedule-Inv :
      (depth : ℕ) (p : Pipeline) (range : ℕ × ℕ) (scheduler : ChunkScheduler)
      → next_request depth p ≡ some (range, scheduler)
      → Good p
      → Good (record p { scheduler = scheduler; reads = p.reads ++ range ∷ [] })
  unfolding next_request
  schedule-Inv depth p range scheduler h v =
      let owed =
        subst (Scheduled start end size p.scheduler (eof_observed p.emit))
          (requested (can_schedule_more p.emit && ltb (length p.reads) depth) _ _ h)
          (next_range-Scheduled start end size fits positive p.scheduler (eof_observed p.emit)
            v.ranged) in
      record {
        ranged = owed.0;
        sound = v.sound;
        sent = All-append (IsSmall size) p.reads (range ∷ []) v.sent (owed.1, tt);
        counted = λ k. record {
          tally = λ x lt. omega (
            arith,
            owed.2 x,
            (v.counted k).tally x lt,
            total-append (covers x) p.reads (range ∷ []),
          );
          drained = (v.counted k).drained;
        };
      }

  failed-Inv :
      (p : Pipeline) (before after : List (ℕ × ℕ)) (range : ℕ × ℕ) (error : Error)
      → p.reads ≡ before ++ range ∷ after
      → Good p
      → Good (record p { emit = record_error p.emit error; reads = before ++ after })
  failed-Inv p before after range error h v = record {
    ranged = v.ranged;
    sound = record_error-Sound file out start p.emit error v.sound;
    sent = (left-IsSmall size p.reads before after range h v.sent).1;
    counted = λ k. absurd (record_error-ne-none p.emit error k);
  }

  recorded-Inv :
      (p : Pipeline) (before after : List (ℕ × ℕ)) (offset count : ℕ) (read : ReadData)
      → p.reads ≡ before ++ (offset, count) ∷ after
      → IsHonest file offset (ok read)
      → IsChecked read count (ok tt)
      → Good p
      → (let output : ReadTaskOutput = record {
        offset = offset;
        requested = count;
        bytes = read.bytes;
        eof = read.eof;
      } in
          Good (complete (record p { reads = before ++ after }) (ok output)))
  unfolding complete
  recorded-Inv p before after offset count read h honest checked v =
      let output : ReadTaskOutput = record {
        offset = offset;
        requested = count;
        bytes = read.bytes;
        eof = read.eof;
      } in
      let served : IsServed file output =
        (honest.0, honest.1, λ n. omega (arith, honest.1 (checked.1 n), (==_iff _ _).0 n)) in
      let sent = left-IsSmall size p.reads before after (offset, count) h v.sent in
      let recorded = record_read-Recorded p.emit output in
      record {
        ranged =
            push_gap-Ranged start end size fits positive p.scheduler output
              (omega (arith, checked.0, sent.0.1)) v.ranged;
        sound = record_read-Sound file out start p.emit output served v.sound;
        sent = sent.1;
        counted = λ k. record {
          tally = λ x lt.
              moved _ _ _ _ _ _ _ _ _ _
                (ap (below x) (push_gap-next p.scheduler (short_read_gap output)))
                ((v.counted (recorded.errors k)).tally x lt) (recorded.counted k x)
                (push_gap-covers p.scheduler output x (length file) checked.0 honest.1 lt)
                (total-left (covers x) p.reads before after (offset, count) h);
          drained = recorded.drained (v.counted (recorded.errors k)).drained;
        };
      }

  answer-Inv :
      (p : Pipeline) (before after : List (ℕ × ℕ)) (offset count : ℕ)
      (reply : Result Error ReadData)
      → p.reads ≡ before ++ (offset, count) ∷ after
      → IsHonest file offset reply
      → Good p
      → Good (complete (record p { reads = before ++ after }) (read_chunk offset count reply))
  unfolding complete read_chunk
  answer-Inv p before after offset count (err error) h honest v =
      failed-Inv p before after (offset, count) error h v
  answer-Inv p before after offset count panic h honest v = absurd honest
  answer-Inv p before after offset count (ok read) h honest v =
      checked (validate_read_reply read count) (
        validate_read_reply-IsChecked read count
          (left-IsSmall size p.reads before after (offset, count) h v.sent).0.0)
    where
      checked :
          (r : Result Error Unit)
          → IsChecked read count r
          → Good (
              complete
                (record p { reads = before ++ after })
                (r
                  >> ok (record {
                    offset = offset;
                    requested = count;
                    bytes = read.bytes;
                    eof = read.eof;
                  })))
      checked (ok a) c = recorded-Inv p before after offset count read h honest c v
      checked (err error) c = failed-Inv p before after (offset, count) error h v
      checked panic c = absurd c

  pub Step-Inv : (depth : ℕ) {p q : Pipeline} → Step file depth p q → Good p → Good q
  Step-Inv depth {p} (schedule range scheduler h) v = schedule-Inv depth p range scheduler h v
  Step-Inv depth {p} (answer before after offset count reply stopped h honest) v =
      answer-Inv p before after offset count reply h honest v

  pub Reach-Inv : (depth : ℕ) {p q : Pipeline} → Good p → Reach file depth p q → Good q
  Reach-Inv depth v here = v
  Reach-Inv depth v (next r s) = Step-Inv depth s (Reach-Inv depth v r)

module _ (file out : List ℕ) (start total_len size depth : ℕ)
    (requirements : ReadRequirements) where
  pub start-Inv :
      start + total_len < u64_limit
      → Inv file out start (start + total_len) size (init out start total_len size requirements)
  unfolding new_scheduler new_emit
  start-Inv h = record {
    ranged = record {
      small = tt;
      started = omega arith;
      ended = omega arith;
      same_end = omega arith;
      same_size = refl;
    };
    sound = record {
      started = omega arith;
      written = nothing;
      exact = tt;
      upper = tt;
      queued = tt;
    };
    sent = tt;
    counted = λ k. record { tally = λ x lt. omega arith; drained = λ _ _. tt };
  }
    where
      nothing : out ≡ out ++ take (start - start) (drop start file)
      nothing =
          sym (append-nil out)
          ∙ ap (λ n. out ++ take n (drop start file)) (let e : 0 ≡ start - start = omega arith in e)
