-- ===== src/Client/Reads.antt =====
-- src/client.rs: what a READ reply has to satisfy, the schedule of a pipelined read, and the ranges
-- that it asks for.
pub mod Emit
pub mod Pipeline
pub mod Removal
pub mod Schedule
pub mod Complete
pub mod Whole
pub mod Sequential
pub mod Contents
pub mod Loop
pub mod Range
pub mod First
pub mod Answers
pub mod Steps
pub mod Sound
pub mod Drain
pub mod Cover
use nfs_crust.Prelude.{
  ℕ, ◌+◌, ◌-◌, ◌%◌, min, Bool, true, false, ◌&&◌, ◌||◌, not, Option, none, some, List, [], ◌∷◌,
  length, ltb, leb, ◌==◌, if◌then◌else◌,
}
use nfs_crust.Prelude.Words.{u32_limit, saturating_add}
use nfs_crust.Result.{Result, ok, err}
use nfs_crust.Result.Try.{◌>>=◌, ◌>>◌}
use nfs_crust.Error.{Error}
use nfs_crust.Nfs4.Body.{ReadData}

pub data ExpectedEof : Type 0 where
  caller_supplied resolved_with_file : ℕ → ExpectedEof

-- `ExpectedEof::offset`
unfoldable pub eof_offset : ExpectedEof → ℕ
eof_offset (ExpectedEof.caller_supplied offset) = offset
eof_offset (ExpectedEof.resolved_with_file offset) = offset

unfoldable pub size_expectation_error : ExpectedEof → Option ℕ → Error
size_expectation_error (ExpectedEof.caller_supplied expected) actual =
    Error.file_size_mismatch expected actual
size_expectation_error (ExpectedEof.resolved_with_file expected) actual = Error.protocol

unfoldable pub validate_optional_observed_eof :
    Option ExpectedEof → Option ℕ → Result Error (Unit {0})
validate_optional_observed_eof none observed_eof = ok tt
validate_optional_observed_eof (some expected) none = err (size_expectation_error expected none)
validate_optional_observed_eof (some expected) (some actual) =
    if eof_offset expected == actual
    then ok tt
    else err (size_expectation_error expected (some actual))

-- A reply may not be longer than the request, nor empty without the end of the file.
unfoldable pub validate_read_reply : ReadData → ℕ → Result Error (Unit {0})
validate_read_reply read count =
    if ltb count (length read.bytes)
    then err Error.protocol
    else if ltb 0 count && (length read.bytes == 0 && not read.eof)
    then err Error.protocol
    else ok tt

unfoldable pub ensure_buffered_read_within_limit :
    ℕ → ℕ → Option ℕ → Option ℕ → Result Error (Unit {0})
ensure_buffered_read_within_limit current_len additional_len expected_len none = ok tt
ensure_buffered_read_within_limit current_len additional_len expected_len (some limit) =
    if ltb limit (saturating_add current_len additional_len)
    then err (Error.buffered_read_too_large expected_len limit)
    else ok tt

pub record ReadTaskOutput : Type 0 where
  pub offset : ℕ
  pub requested : ℕ
  pub bytes : List ℕ
  pub eof : Bool

-- A reply to a READ at an offset, checked.
unfoldable pub read_chunk : ℕ → ℕ → Result Error ReadData → Result Error ReadTaskOutput
read_chunk offset count reply = do
  read ← reply
  validate_read_reply read count
  ok (record { offset = offset; requested = count; bytes = read.bytes; eof = read.eof })

-- A short read that is not the last leaves a gap.
unfoldable pub short_read_gap : ReadTaskOutput → Option (ℕ × ℕ)
short_read_gap read =
    if not read.eof && ltb 0 (read.requested - length read.bytes)
    then some (read.offset + length read.bytes, read.requested - length read.bytes)
    else none

-- `gaps` is a stack, the last pushed first.
pub record ChunkScheduler : Type 0 where
  pub gaps : List (ℕ × ℕ)
  pub next_offset : ℕ
  pub end : ℕ
  pub chunk_size : ℕ

-- `ChunkScheduler::new`
unfoldable pub new_scheduler : ℕ → ℕ → ℕ → ChunkScheduler
new_scheduler start end chunk_size = record {
  gaps = [];
  next_offset = start;
  end = end;
  chunk_size = chunk_size;
}

unfoldable pub push_gap : ChunkScheduler → Option (ℕ × ℕ) → ChunkScheduler
push_gap s none = s
push_gap s (some gap) = record s { gaps = gap ∷ s.gaps }

abbrev pub pop_gap : List (ℕ × ℕ) → ChunkScheduler → Bool → Option ((ℕ × ℕ) × ChunkScheduler)
pop_gap ((offset, len) ∷ gaps) s eof_observed =
    some ((offset, min len s.chunk_size % u32_limit), record s { gaps = gaps })
pop_gap [] s eof_observed =
    if eof_observed || leb s.end s.next_offset
    then none
    else let len = min (s.end - s.next_offset) s.chunk_size in
      some ((s.next_offset, len % u32_limit), record s { next_offset = s.next_offset + len })

-- The range to ask for, and the scheduler after it.
unfoldable pub next_range : ChunkScheduler → Bool → Option ((ℕ × ℕ) × ChunkScheduler)
next_range s eof_observed = pop_gap s.gaps s eof_observed
