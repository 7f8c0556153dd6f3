-- ===== src/Client/Reads/Range.antt =====
-- src/client.rs: the reads of a range, which go on by sequential or by pipelined requests when the
-- first reply is short. `lookup` is the outcome of `lookup_file_handle`.
use nfs_crust.Prelude.{
  ℕ, suc, ◌+◌, ◌-◌, ◌%◌, Bool, true, false, not, ◌&&◌, ◌||◌, ◌==◌, Option, none, some, List, [],
  length, ltb, leb, if◌then◌else◌,
}
use nfs_crust.Prelude.Words.{u32_limit}
use nfs_crust.Result.{Result, ok, err}
use nfs_crust.Result.Try.{◌>>=◌, ◌>>◌}
use nfs_crust.Error.{Error}
use nfs_crust.Nfs4.Body.{ReadData}
use nfs_crust.Client.Reads.{
  ExpectedEof, eof_offset, size_expectation_error, validate_read_reply,
  ensure_buffered_read_within_limit,
}
use nfs_crust.Client.Reads.Pipeline.{ReadRequirements}
use nfs_crust.Client.Reads.Loop.{read_pipelined_into}
use nfs_crust.Client.Reads.Sequential.{Replies, read_sequential_into}

unfoldable pub read_needs_retry : ReadData → ℕ → Bool
read_needs_retry read count = ltb (length read.bytes) count && not read.eof

unfoldable pub validate_eof_expectation : ExpectedEof → ℕ → Bool → Result Error (Unit {0})
validate_eof_expectation expectation observed_end true =
    if observed_end == eof_offset expectation
    then ok tt
    else err (size_expectation_error expectation (some observed_end))
validate_eof_expectation expectation observed_end false =
    if leb (eof_offset expectation) observed_end
    then err (size_expectation_error expectation none)
    else ok tt

unfoldable pub validate_expected_eof : ℕ → ℕ → Bool → Result Error (Unit {0})
validate_expected_eof expected observed_end eof =
    validate_eof_expectation (ExpectedEof.caller_supplied expected) observed_end eof

unfoldable pub validate_optional_expected_eof :
    Option ExpectedEof → ℕ → Bool → Result Error (Unit {0})
validate_optional_expected_eof none observed_end eof = ok tt
validate_optional_expected_eof (some expected) observed_end eof =
    validate_eof_expectation expected observed_end eof

-- The first reply, checked.
abbrev pub first_reply : Replies → ReadRequirements → ℕ → ℕ → ℕ → Result Error ReadData
first_reply session requirements offset count requests = do
  read ← session requests offset count
  validate_read_reply read count
  ensure_buffered_read_within_limit 0 (length read.bytes) requirements.expected_len
      requirements.limit
  ok read

-- It is the whole answer.
abbrev pub whole_reply : ReadRequirements → ℕ → ReadData → Result Error (List ℕ)
whole_reply requirements offset read = do
  validate_optional_expected_eof requirements.expected_eof (offset + length read.bytes) read.eof
  ok read.bytes

module _ (session : Replies) (chunk_size granularity depth : ℕ) (requirements : ReadRequirements)
    (choose : ℕ → ℕ) where
  unfoldable pub read_handle_single_chunk_or_continue : ℕ → ℕ → ℕ → Result Error (List ℕ)
  read_handle_single_chunk_or_continue offset count requests = do
    read ← first_reply session requirements offset count requests
    if read_needs_retry read count
        then read_sequential_into session chunk_size requirements read.bytes
            (offset + length read.bytes) (count - length read.bytes) (suc requests)
        else whole_reply requirements offset read

  unfoldable pub read_handle_to_bytes : ℕ → ℕ → ℕ → Result Error (List ℕ)
  read_handle_to_bytes offset remaining requests =
      if remaining == 0
      then ok []
      else if leb remaining granularity
      then read_handle_single_chunk_or_continue offset (remaining % u32_limit) requests
      else if leb depth 1
      then read_sequential_into session chunk_size requirements [] offset remaining requests
      else read_pipelined_into session choose depth granularity requirements [] offset remaining
          requests

  unfoldable pub read_handle_to_bytes_after_prefix : List ℕ → ℕ → ℕ → ℕ → Result Error (List ℕ)
  read_handle_to_bytes_after_prefix prefix resume_offset remaining requests =
      if leb remaining granularity || leb depth 1
      then read_sequential_into session chunk_size requirements prefix resume_offset remaining
          requests
      else read_pipelined_into session choose depth granularity requirements prefix resume_offset
          remaining requests

  -- Ranges of at most `granularity` bytes are read by their path, and again by the handle when the
  -- reply is short; longer ones go on behind the first reply.
  unfoldable pub read_range_anonymous : Result Error (Unit {0}) → ℕ → ℕ → Result Error (List ℕ)
  read_range_anonymous lookup start requested_len =
      if leb requested_len granularity
      then (do
        read ← first_reply session requirements start (requested_len % u32_limit) 0
        if read_needs_retry read (requested_len % u32_limit)
            then (lookup >> read_handle_to_bytes start requested_len 1)
            else whole_reply requirements start read)
      else (do
        read ← first_reply session requirements start granularity 0
        if read.eof
            then whole_reply requirements start (record read { eof = true })
            else read_handle_to_bytes_after_prefix read.bytes (start + length read.bytes)
                (requested_len - length read.bytes) 1)
