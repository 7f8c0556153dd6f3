-- ===== src/Client/Reads/Pipeline.antt =====
-- src/client.rs: `read_handle_to_bytes_pipelined_into`, whose requests are answered in any order by a
-- server that holds a file.
use nfs_crust.Prelude.{
  ℕ, ◌≤◌, ◌+◌, ◌≡◌, true, ◌&&◌, Option, none, some, List, [], ◌∷◌, ◌++◌, length, take, drop, ltb,
  if◌then◌else◌,
}
use nfs_crust.Prelude.Words.{saturating_add}
use nfs_crust.Result.{Result, ok, err, panic}
use nfs_crust.Error.{Error}
use nfs_crust.Nfs4.Body.{ReadData}
use nfs_crust.Client.Reads.{
  ExpectedEof, ReadTaskOutput, read_chunk, short_read_gap, ChunkScheduler, new_scheduler, push_gap,
  next_range,
}
use nfs_crust.Client.Reads.Emit.{
  PipelinedEmit, new_emit, eof_observed, can_schedule_more, record_error, record_read,
}

-- A reply of a server that holds `file`: a prefix of what is there, and the flag for the end of the
-- file only where the data ends with it. Or an error.
abbrev pub IsHonest : List ℕ → ℕ → Result Error ReadData → Type 0
IsHonest file offset (ok read) =
    (read.bytes ≡ take (length read.bytes) (drop offset file))
    × (read.eof ≡ true → length file ≤ offset + length read.bytes)
IsHonest file offset (err e) = Unit
IsHonest file offset panic = ⊥

pub record Pipeline : Type 0 where
  pub scheduler : ChunkScheduler
  pub emit : PipelinedEmit
  pub reads : List (ℕ × ℕ)

pub record ReadRequirements : Type 0 where
  pub expected_len : Option ℕ
  pub expected_eof : Option ExpectedEof
  pub limit : Option ℕ

abbrev pub init : List ℕ → ℕ → ℕ → ℕ → ReadRequirements → Pipeline
init out start total_len chunk_size requirements = record {
  scheduler = new_scheduler start (saturating_add start total_len) chunk_size;
  emit = new_emit out start requirements.expected_len requirements.expected_eof requirements.limit;
  reads = [];
}

-- The next request of the inner loop, and the scheduler after it.
unfoldable pub next_request : ℕ → Pipeline → Option ((ℕ × ℕ) × ChunkScheduler)
next_request depth p =
    if can_schedule_more p.emit && ltb (length p.reads) depth
    then next_range p.scheduler (eof_observed p.emit)
    else none

-- The result of a request that the outer loop waited for.
unfoldable pub complete : Pipeline → Result Error ReadTaskOutput → Pipeline
complete p (ok read) = record p {
  scheduler = push_gap p.scheduler (short_read_gap read);
  emit = record_read p.emit read;
}
complete p (err error) = record p { emit = record_error p.emit error }
complete p panic = p

-- One request sent, or one answered when no other can be sent.
pub data Step (file : List ℕ) (depth : ℕ) (p : Pipeline) : Pipeline → Type 0 where
  schedule :
      (range : ℕ × ℕ) (scheduler : ChunkScheduler)
      → next_request depth p ≡ some (range, scheduler)
      → Step file depth p (record p { scheduler = scheduler; reads = p.reads ++ range ∷ [] })
  answer :
      (before after : List (ℕ × ℕ)) (offset count : ℕ) (reply : Result Error ReadData)
      → next_request depth p ≡ none
      → p.reads ≡ before ++ (offset, count) ∷ after
      → IsHonest file offset reply
      → Step file depth p
          (complete (record p { reads = before ++ after }) (read_chunk offset count reply))

pub data Reach (file : List ℕ) (depth : ℕ) (s : Pipeline) : Pipeline → Type 0 where
  here : Reach file depth s s
  next : {p q : Pipeline} → Reach file depth s p → Step file depth p q → Reach file depth s q
