-- ===== src/Client/Writes/Committed.antt =====
-- src/client.rs: a single chunk that is written and committed.
use mathlib.Core.Path.{subst}
use nfs_crust.Prelude.{
  ℕ, zero, suc, ◌+◌, ◌≤◌, ◌<◌, ◌≡◌, refl, sym, ◌∙◌, Bool, true, false, none, List, length, drop,
  length-drop, ltb, ge→ltb, if◌then◌else◌, arith, inl, inr, Bool-cases,
}
use nfs_crust.Prelude.Words.{u64_limit}
use nfs_crust.Result.Action.{Action, ◌>>=◌, ◌>>◌, Ensures, Ensures-weaken, ◌▹◌, lift, pure}
use nfs_crust.Error.{Error}
use nfs_crust.Nfs4.Body.{
  WriteData, WriteStability, requires_commit, same_bytes, ensure_write_verifier,
}
use nfs_crust.Client.Writes.{
  add_u64, validate_write_reply, WriteOutcome, committed_loop, write_single_chunk_committed,
}
use nfs_crust.Client.Writes.Server.{FileServer, at_risk, after_commit}
use nfs_crust.Client.Writes.Contents.{
  validate_write_reply-Ensures, add_u64-eq, Holds, nothing_held, then-Holds, Took-at, Stored,
  Holds-Stored,
}

no_risk :
    (same : Bool) (stability : WriteStability) (verifier : List ℕ)
    → requires_commit stability ≡ false
    → (if same then none else at_risk stability verifier) ≡ none
unfolding requires_commit
no_risk true stability verifier h = refl
no_risk false WriteStability.file_sync verifier h = refl
no_risk false WriteStability.unstable verifier h = absurd (ground arith)
no_risk false WriteStability.data_sync verifier h = absurd (ground arith)

-- The check passes only where nothing is left at risk.
verified-Ensures :
    {S : Type 0} (reply : WriteData) (verifier : List ℕ) (s : S)
    → Ensures
        (λ _ s'. (s' ≡ s) × (after_commit reply verifier ≡ none))
        ((if requires_commit reply.committed
            then lift (ensure_write_verifier reply.verifier verifier)
            else pure tt)
          s)
unfolding ensure_write_verifier
verified-Ensures {S} reply verifier s = onward (requires_commit reply.committed) refl
  where
    onward :
        (b : Bool)
        → requires_commit reply.committed ≡ b
        → Ensures
            (λ _ s'. (s' ≡ s) × (after_commit reply verifier ≡ none))
            ((if b then lift (ensure_write_verifier reply.verifier verifier) else pure tt) s)
    onward true e = elim (Bool-cases (same_bytes verifier reply.verifier)) [
      | inl t ↦ rw t (record { holds = (refl, refl) })
      | inr t ↦ rw t (record { holds = tt })
    ]
    onward false e = record {
      holds = (refl, no_risk (same_bytes verifier reply.verifier) reply.committed reply.verifier e);
    }

module _ (server : FileServer) (max_write_size : ℕ) where
  abbrev Done : List ℕ → ℕ → ℕ → server.State → WriteOutcome → server.State → Type 0
  Done chunk start offset s outcome s' =
      (outcome.bytes_written ≡ length chunk)
      × (outcome.unstable_verifier ≡ none)
      × Holds server offset (drop start chunk) none s s'

  abbrev Stands : List ℕ → ℕ → ℕ → ℕ → Type 0
  Stands chunk fuel start offset =
      (start ≤ length chunk)
      × (length chunk ≤ start + fuel)
      × (offset + length chunk < u64_limit + start)

  committed_loop-Done :
      (chunk : List ℕ) (fuel start offset : ℕ) (s : server.State)
      → Stands chunk fuel start offset
      → Ensures (Done chunk start offset s) (
          committed_loop server.write server.write_and_commit max_write_size chunk fuel start offset
            s)
  unfolding committed_loop
  committed_loop-Done chunk zero start offset s h =
      rw (ge→ltb start (length chunk) (omega arith)) (record {
        holds = (omega arith, refl, nothing_held server chunk start offset none s (omega arith));
      })
  committed_loop-Done chunk (suc fuel) start offset s h =
      pass (ltb start (length chunk)) refl (committed_loop-Done chunk fuel)
    where
      pass :
          (b : Bool)
          → ltb start (length chunk) ≡ b
          → ((start' offset' : ℕ) (s' : server.State)
              → Stands chunk fuel start' offset'
              → Ensures (Done chunk start' offset' s') (
                  committed_loop server.write server.write_and_commit max_write_size chunk fuel
                    start' offset' s'))
          → Ensures (Done chunk start offset s) (
              (elim b as (λ _. Action Error server.State WriteOutcome) [
                | false ↦ pure (record { bytes_written = start; unstable_verifier = none })
                | true ↦ do
                  (reply, commit_verifier) ← server.write_and_commit offset (drop start chunk)
                  written ← lift (validate_write_reply reply (length (drop start chunk)))
                  if requires_commit reply.committed
                      then lift (ensure_write_verifier reply.verifier commit_verifier)
                      else pure tt
                  offset' ← lift (add_u64 offset written)
                  committed_loop server.write server.write_and_commit max_write_size chunk fuel
                      (start + written)
                      offset'
              ])
                s)
      pass false e rest = record {
        holds = (ground arith, refl, nothing_held server chunk start offset none s (ground arith));
      }
      pass true e rest = server.write_and_commit_takes offset (drop start chunk) s ▹ λ both s1 w.
          validate_write_reply-Ensures (both.0) (length (drop start chunk)) s1 ▹ λ written s2 v.
          verified-Ensures (both.0) (both.1) s2 ▹ λ _ s3 m.
          let inside : start + written ≤ length chunk =
            omega (arith, v.2, length-drop start chunk) in
          rw (add_u64-eq offset written (omega (arith, h, inside))) (
            Ensures-weaken _
              (rest (start + written) (offset + written) s3
                (inside, omega (arith, v.1, h), omega (arith, h)))
              λ out s4 q. (
                q.0,
                q.1,
                then-Holds server chunk start offset written none s s1 s4 (v.2)
                    (Took-at server offset written (drop start chunk) (both.0)
                      (after_commit (both.0) (both.1)) none s s1 (v.0) (v.2) (inl (m.1)) w)
                    (subst
                      (λ t.
                        Holds server (offset + written) (drop (start + written) chunk) none t s4)
                      (m.0 ∙ v.3) (q.2)),
              ))

  -- Writing a chunk, whose range has an end that is a `u64`, with a commit after each request neither
  -- panics nor runs out of its fuel. If it succeeds, the outcome counts every byte and has no verifier,
  -- the server took in the whole chunk from the offset on and nothing else, no byte of it can be lost any
  -- more, and the file reads as the chunk, before and after a reboot.
  pub write_single_chunk_committed-IsStored :
      (offset : ℕ) (chunk : List ℕ) (s : server.State)
      → offset + length chunk < u64_limit
      → Ensures
          (λ outcome s'.
            Stored server chunk offset s outcome s' × (outcome.unstable_verifier ≡ none))
          (write_single_chunk_committed server.write server.write_and_commit max_write_size offset
            chunk s)
  unfolding write_single_chunk_committed
  write_single_chunk_committed-IsStored offset chunk s h =
      Ensures-weaken _
        (committed_loop-Done chunk (length chunk) 0 offset s
          (omega arith, omega arith, omega arith))
        λ outcome s' q. (
          Holds-Stored server chunk offset s outcome s' (q.0)
              (subst (λ v. Holds server offset chunk v s s') (sym (q.1)) (q.2)),
          q.1,
        )
