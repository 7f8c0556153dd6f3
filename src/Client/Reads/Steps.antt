-- ===== src/Client/Reads/Steps.antt =====
-- src/client.rs: `read_handle_to_bytes_pipelined_into` ends.
use mathlib.Core.Path.{subst}
use nfs_crust.Prelude.{
  ℕ, suc, ◌≤◌, ◌<◌, ◌+◌, ◌*◌, ◌≡◌, some, List, [], ◌∷◌, ◌++◌, length, length-append, All, arith,
  ◌&&◌, ltb, ap, ◌∙◌,
}
use nfs_crust.Prelude.Words.{u32_limit, u64_limit}
use nfs_crust.Result.{Result, ok, err, panic}
use nfs_crust.Result.Try.{◌>>◌}
use nfs_crust.Error.{Error}
use nfs_crust.Nfs4.Body.{ReadData}
use nfs_crust.Client.Reads.{
  ReadTaskOutput, ChunkScheduler, new_scheduler, push_gap, short_read_gap, read_chunk,
  validate_read_reply,
}
use nfs_crust.Client.Reads.Emit.{
  PipelinedEmit, record_read, record_error, eof_observed, can_schedule_more,
}
use nfs_crust.Client.Reads.Pipeline.{
  IsHonest, Pipeline, ReadRequirements, init, next_request, complete, Step, schedule, answer, Reach,
  here, next,
}
use nfs_crust.Client.Reads.Removal.{total, total-append}
use nfs_crust.Client.Reads.Schedule.{IsSmall, Scheduled, next_range-Scheduled, owed, push_gap-owed}
use nfs_crust.Client.Reads.Complete.{
  Inv, requested, left-IsSmall, total-left, IsChecked, validate_read_reply-IsChecked, start-Inv,
  Reach-Inv,
}

abbrev pub steps : {file : List ℕ} {depth : ℕ} {p q : Pipeline} → Reach file depth p q → ℕ
steps here = 0
steps (next r s) = suc (steps r)

-- The bytes that are not answered.
abbrev unanswered : ℕ → Pipeline → ℕ
unanswered end p = owed end p.scheduler + total (λ range. range.1) p.reads

-- A step asks for bytes that were owed, or answers at least one.
abbrev Spent : ℕ → Pipeline → Pipeline → Type 0
Spent end p q = 2 * unanswered end q + 1 + length p.reads ≤ 2 * unanswered end p + length q.reads

left-length :
    {A : Type 0} (reads before after : List A) (range : A)
    → reads ≡ before ++ range ∷ after
    → length reads ≡ suc (length (before ++ after))
left-length reads before after range h =
    ap length h ∙ omega (arith, length-append before (range ∷ after), length-append before after)

small-total :
    (size : ℕ) (reads : List (ℕ × ℕ))
    → All (IsSmall size) reads
    → length reads ≤ total (λ range. range.1) reads
small-total size [] h = omega arith
small-total size (range ∷ reads) h = omega (arith, small-total size reads h.1)

module _ (file out : List ℕ) (start end size depth : ℕ) (fits : size < u32_limit)
    (positive : 0 < size) where
  schedule-Spent :
      (p : Pipeline) (range : ℕ × ℕ) (scheduler : ChunkScheduler)
      → next_request depth p ≡ some (range, scheduler)
      → Inv file out start end size p
      → Spent end p (record p { scheduler = scheduler; reads = p.reads ++ range ∷ [] })
  unfolding next_request
  schedule-Spent p range scheduler h v =
      let owes =
        subst (Scheduled start end size p.scheduler (eof_observed p.emit))
          (requested (can_schedule_more p.emit && ltb (length p.reads) depth) _ _ h)
          (next_range-Scheduled start end size fits positive p.scheduler (eof_observed p.emit)
            v.ranged) in
      omega (
        arith,
        owes.3,
        total-append (λ r. r.1) p.reads (range ∷ []),
        length-append p.reads (range ∷ []),
      )

  answered :
      (p : Pipeline) (before after : List (ℕ × ℕ)) (range : ℕ × ℕ) (scheduler : ChunkScheduler)
      → p.reads ≡ before ++ range ∷ after
      → owed end scheduler < owed end p.scheduler + range.1
      → (e : PipelinedEmit)
      → Spent end p (record { scheduler = scheduler; emit = e; reads = before ++ after })
  answered p before after range scheduler h less e = omega (
    arith,
    less,
    total-left (λ r. r.1) p.reads before after range h,
    left-length p.reads before after range h,
  )

  answer-Spent :
      (p : Pipeline) (before after : List (ℕ × ℕ)) (offset count : ℕ)
      (reply : Result Error ReadData)
      → p.reads ≡ before ++ (offset, count) ∷ after
      → IsHonest file offset reply
      → Inv file out start end size p
      → Spent end p
          (complete (record p { reads = before ++ after }) (read_chunk offset count reply))
  unfolding complete read_chunk
  answer-Spent p before after offset count (err error) h honest v =
      answered p before after (offset, count) p.scheduler h
        (omega (arith, (left-IsSmall size p.reads before after (offset, count) h v.sent).0.0))
        (record_error p.emit error)
  answer-Spent p before after offset count panic h honest v = absurd honest
  answer-Spent p before after offset count (ok read) h honest v =
      checked (validate_read_reply read count) (
        validate_read_reply-IsChecked read count
          (left-IsSmall size p.reads before after (offset, count) h v.sent).0.0)
    where
      output : ReadTaskOutput
      output = record { offset = offset; requested = count; bytes = read.bytes; eof = read.eof }

      checked :
          (r : Result Error Unit)
          → IsChecked read count r
          → Spent end p (
              complete
                (record p { reads = before ++ after })
                (r
                  >> ok (record {
                    offset = offset;
                    requested = count;
                    bytes = read.bytes;
                    eof = read.eof;
                  })))
      checked (ok a) c =
          answered p before after (offset, count) (push_gap p.scheduler (short_read_gap output)) h
            (push_gap-owed end p.scheduler output
              (left-IsSmall size p.reads before after (offset, count) h v.sent).0.0 c.1)
            (record_read p.emit output)
      checked (err error) c =
          answered p before after (offset, count) p.scheduler h
            (omega (arith, (left-IsSmall size p.reads before after (offset, count) h v.sent).0.0))
            (record_error p.emit error)
      checked panic c = absurd c

  Step-Spent :
      {p q : Pipeline} → Step file depth p q → Inv file out start end size p → Spent end p q
  Step-Spent {p} (schedule range scheduler h) v = schedule-Spent p range scheduler h v
  Step-Spent {p} (answer before after offset count reply stopped h honest) v =
      answer-Spent p before after offset count reply h honest v

  Reach-Spent :
      {p q : Pipeline}
      → Inv file out start end size p
      → (r : Reach file depth p q)
      → steps r + 2 * unanswered end q + length p.reads ≤ 2 * unanswered end p + length q.reads
  Reach-Spent v here = omega arith
  Reach-Spent v (next r s) = omega (
    arith,
    Reach-Spent v r,
    Step-Spent s (Reach-Inv file out start end size fits positive depth v r),
  )

module _ (file out : List ℕ) (start total_len size depth : ℕ)
    (requirements : ReadRequirements) where
  -- A pipelined read of `total_len` bytes ends after at most 2 * total_len steps, each of which sends a
  -- request or takes in a reply: every reply that it accepts brings a byte or the end of the file. The
  -- range ends below 2 ^ 64, and requests are at least one byte and below 2 ^ 32.
  pub pipelined_read-steps :
      {p : Pipeline}
      → start + total_len < u64_limit
      → size < u32_limit
      → 0 < size
      → (run : Reach file depth (init out start total_len size requirements) p)
      → steps run ≤ 2 * total_len
  unfolding new_scheduler
  pipelined_read-steps {p} range fits positive run =
      let v = start-Inv file out start total_len size depth requirements range in
      let w = Reach-Inv file out start (start + total_len) size fits positive depth v run in
      omega (
        arith,
        Reach-Spent file out start (start + total_len) size depth fits positive v run,
        small-total size p.reads w.sent,
      )
