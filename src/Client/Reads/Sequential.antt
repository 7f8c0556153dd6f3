-- ===== src/Client/Reads/Sequential.antt =====
-- src/client.rs: the reads that ask for one chunk after the other. `session` answers the requests: the
-- reply to the n-th one, for an offset and a count. Each reply that does not end the loop brings a
-- byte, so that the length of the range is enough fuel; without it the loop panics.
use nfs_crust.Prelude.{
  ℕ, zero, suc, ◌+◌, ◌-◌, ◌%◌, min, true, false, ◌==◌, Option, none, some, List, ◌++◌,
  if◌then◌else◌, length,
}
use nfs_crust.Prelude.Words.{u32_limit}
use nfs_crust.Result.{Result, ok, panic}
use nfs_crust.Result.Try.{◌>>=◌, ◌>>◌}
use nfs_crust.Error.{Error}
use nfs_crust.Nfs4.Body.{ReadData}
use nfs_crust.Client.Reads.{
  validate_optional_observed_eof, validate_read_reply, ensure_buffered_read_within_limit,
}
use nfs_crust.Client.Reads.Pipeline.{ReadRequirements}

abbrev pub Replies : Type 0
Replies = ℕ → ℕ → ℕ → Result Error ReadData

-- The variables of the loop, and the number of requests made.
pub record Progress : Type 0 where
  pub out : List ℕ
  pub offset : ℕ
  pub remaining : ℕ
  pub observed_eof : Option ℕ
  pub requests : ℕ

abbrev pub eof_after : ReadData → ℕ → Option ℕ → Option ℕ
eof_after read offset observed_eof =
    if read.eof then some (offset + length read.bytes) else observed_eof

abbrev pub extended_by : ReadData → Progress → Progress
extended_by read p = record {
  out = p.out ++ read.bytes;
  offset = p.offset + length read.bytes;
  remaining = p.remaining - length read.bytes;
  observed_eof = eof_after read p.offset p.observed_eof;
  requests = suc p.requests;
}

-- What follows a checked reply; `more` is the rest of the loop.
abbrev pub after_reply :
    ReadRequirements
    → ReadData
    → Progress
    → (Progress → Result Error Progress)
    → Result Error Progress
after_reply requirements read p more = elim (length read.bytes == 0) [
  | true ↦ ok (record p { observed_eof = eof_after read p.offset p.observed_eof })
  | false ↦ do
    ensure_buffered_read_within_limit (length p.out) (length read.bytes) requirements.expected_len
        requirements.limit
    elim read.eof [ true ↦ ok (extended_by read p) | false ↦ more (extended_by read p) ]
]

module _ (session : Replies) (chunk_size : ℕ) (requirements : ReadRequirements) where
  unfoldable pub read_loop : ℕ → Progress → Result Error Progress
  read_loop zero p = if p.remaining == 0 then ok p else panic
  read_loop (suc fuel) p = elim (p.remaining == 0) [
    | true ↦ ok p
    | false ↦ do
      read ← session p.requests p.offset (min p.remaining chunk_size % u32_limit)
      validate_read_reply read (min p.remaining chunk_size % u32_limit)
      after_reply requirements read p (read_loop fuel)
  ]

  -- `read_handle_to_bytes_sequential_into`
  unfoldable pub read_sequential_into : List ℕ → ℕ → ℕ → ℕ → Result Error (List ℕ)
  read_sequential_into out offset remaining requests = do
    p ← read_loop remaining (record {
      out = out;
      offset = offset;
      remaining = remaining;
      observed_eof = none;
      requests = requests;
    })
    validate_optional_observed_eof requirements.expected_eof p.observed_eof
    ok p.out
