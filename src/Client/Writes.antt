-- ===== src/Client/Writes.antt =====
-- src/client.rs: the writes of a body in chunks, as actions over the state of a server.
pub mod Server
pub mod Contents
pub mod Chunks
pub mod Committed
use nfs_crust.Prelude.{
  ℕ, zero, suc, ◌+◌, ◌-◌, min, Bool, true, false, Option, none, some, List, [], length, take, drop,
  ltb, ◌==◌, if◌then◌else◌,
}
use nfs_crust.Prelude.Words.{u64_limit}
use nfs_crust.Result.{Result, ok, err, panic}
use nfs_crust.Result.Action.{Action, ◌>>=◌, ◌>>◌, pure, lift}
use nfs_crust.Error.{Error}
use nfs_crust.Nfs4.Body.{WriteData, requires_commit, ensure_write_verifier}

-- Adding `u64`s, which panics where the sum does not fit.
unfoldable pub add_u64 : ℕ → ℕ → Result Error ℕ
add_u64 a b = if ltb (a + b) u64_limit then ok (a + b) else panic

unfoldable pub validate_write_reply : WriteData → ℕ → Result Error ℕ
validate_write_reply write requested_len =
    if write.count == 0
    then err Error.protocol
    else if ltb requested_len write.count
    then err Error.protocol
    else ok write.count

pub record WriteOutcome : Type 0 where
  pub bytes_written : ℕ
  pub unstable_verifier : Option (List ℕ)

-- `WriteOutcome::default`
abbrev pub default_outcome : WriteOutcome
default_outcome = record { bytes_written = 0; unstable_verifier = none }

unfoldable pub from_write : WriteData → ℕ → WriteOutcome
from_write write bytes_written = record {
  bytes_written = bytes_written;
  unstable_verifier = if requires_commit write.committed then some write.verifier else none;
}

abbrev pub verified : Result Error (Unit {0}) → WriteOutcome → Result Error WriteOutcome
verified (ok a) outcome = ok outcome
verified (err e) outcome = err e
verified panic outcome = panic

abbrev pub record_verifier : Option (List ℕ) → WriteOutcome → List ℕ → Result Error WriteOutcome
record_verifier (some existing) outcome verifier =
    verified (ensure_write_verifier existing verifier) outcome
record_verifier none outcome verifier = ok (record outcome { unstable_verifier = some verifier })

unfoldable pub record_unstable : WriteOutcome → List ℕ → Result Error WriteOutcome
record_unstable outcome verifier = record_verifier outcome.unstable_verifier outcome verifier

abbrev pub merge_verifier : Option (List ℕ) → WriteOutcome → Result Error WriteOutcome
merge_verifier none outcome = ok outcome
merge_verifier (some verifier) outcome = record_unstable outcome verifier

abbrev pub merge_sum : Result Error ℕ → WriteOutcome → WriteOutcome → Result Error WriteOutcome
merge_sum (ok sum) outcome other =
    merge_verifier other.unstable_verifier (record outcome { bytes_written = sum })
merge_sum (err e) outcome other = err e
merge_sum panic outcome other = panic

unfoldable pub merge : WriteOutcome → WriteOutcome → Result Error WriteOutcome
merge outcome other = merge_sum (add_u64 outcome.bytes_written other.bytes_written) outcome other

-- `write` and `write_and_commit` of the session, for an offset and bytes, over the server's state.
module _ {S : Type 0} (write : ℕ → List ℕ → Action Error S WriteData)
    (write_and_commit : ℕ → List ℕ → Action Error S (WriteData × List ℕ)) (max_write_size : ℕ) where
  -- The loop of `write_chunk_all`. Each reply accepts a byte, so that the length of the chunk is enough
  -- fuel; without it the loop panics.
  unfoldable pub write_loop : List ℕ → ℕ → WriteOutcome → ℕ → ℕ → Action Error S WriteOutcome
  write_loop chunk zero outcome written_total offset =
      lift (if ltb written_total (length chunk) then panic else ok outcome)
  write_loop chunk (suc fuel) outcome written_total offset =
      elim (ltb written_total (length chunk)) [
        | false ↦ pure outcome
        | true ↦
            let end = min (written_total + max_write_size) (length chunk) in
            let remaining = take (end - written_total) (drop written_total chunk) in
            do
              reply ← write offset remaining
              written ← lift (validate_write_reply reply (length remaining))
              outcome' ← lift (merge outcome (from_write reply written))
              offset' ← lift (add_u64 offset written)
              write_loop chunk fuel outcome' (written_total + written) offset'
      ]

  unfoldable pub write_chunk_all : ℕ → List ℕ → Action Error S WriteOutcome
  write_chunk_all offset chunk = write_loop chunk (length chunk) default_outcome 0 offset

  unfoldable pub write_chunk : ℕ → List ℕ → Action Error S WriteOutcome
  write_chunk offset chunk = do
    reply ← write offset chunk
    written ← lift (validate_write_reply reply (length chunk))
    let outcome = from_write reply written in
        if written == length chunk then pure outcome else (do
          rest_offset ← lift (add_u64 offset written)
          rest ← write_chunk_all rest_offset (drop written chunk)
          lift (merge outcome rest))

  -- The loop of `write_single_chunk_committed`.
  unfoldable pub committed_loop : List ℕ → ℕ → ℕ → ℕ → Action Error S WriteOutcome
  committed_loop chunk zero written_total offset = lift (
      if ltb written_total (length chunk)
      then panic
      else ok (record { bytes_written = written_total; unstable_verifier = none }))
  committed_loop chunk (suc fuel) written_total offset = elim (ltb written_total (length chunk)) [
    | false ↦ pure (record { bytes_written = written_total; unstable_verifier = none })
    | true ↦ do
      (reply, commit_verifier) ← write_and_commit offset (drop written_total chunk)
      written ← lift (validate_write_reply reply (length (drop written_total chunk)))
      if requires_commit reply.committed
          then lift (ensure_write_verifier reply.verifier commit_verifier)
          else pure tt
      offset' ← lift (add_u64 offset written)
      committed_loop chunk fuel (written_total + written) offset'
  ]

  unfoldable pub write_single_chunk_committed : ℕ → List ℕ → Action Error S WriteOutcome
  write_single_chunk_committed offset chunk = committed_loop chunk (length chunk) 0 offset
