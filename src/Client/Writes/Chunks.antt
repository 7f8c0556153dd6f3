-- ===== src/Client/Writes/Chunks.antt =====
-- src/client.rs: a chunk that is written by as many requests as the server needs.
use mathlib.Core.Path.{subst}
use nfs_crust.Prelude.{
  ℕ, zero, suc, ◌+◌, ◌-◌, ◌≤◌, ◌<◌, min, ◌≡◌, refl, sym, ◌∙◌, Bool, true, false, Option, List,
  length, take-take, ge→ltb, take, drop, length-take, length-drop, ltb, ◌==◌, ==_iff, if◌then◌else◌,
  arith, inr,
}
use nfs_crust.Prelude.Words.{u64_limit}
use nfs_crust.Result.Action.{Action, ◌>>=◌, Ensures, Ensures-weaken, ◌▹◌, lift, pure}
use nfs_crust.Error.{Error}
use nfs_crust.Nfs4.Body.{WriteData}
use nfs_crust.Client.Writes.{
  add_u64, validate_write_reply, WriteOutcome, default_outcome, from_write, merge, write_loop,
  write_chunk_all, write_chunk,
}
use nfs_crust.Client.Writes.Server.{
  FileServer, IsWritten, Marks, Marks-extend, Extends, Extends-trans, Took, at_risk,
}
use nfs_crust.Client.Writes.Contents.{
  validate_write_reply-Ensures, add_u64-eq, from_write-bytes_written, from_write-at_risk,
  merge-Ensures, Holds, nothing_held, then-Holds, Took-at, Stored, Holds-Stored,
}

module _ (server : FileServer) (max_write_size : ℕ) where
  -- The bytes of `chunk` from `start` on were taken in from `offset` on, and the outcome goes on from an
  -- earlier one.
  abbrev Wrote : List ℕ → ℕ → ℕ → WriteOutcome → server.State → WriteOutcome → server.State → Type 0
  Wrote chunk start offset earlier s outcome s' =
      (outcome.bytes_written ≡ length chunk)
      × Extends earlier.unstable_verifier outcome.unstable_verifier
      × Holds server offset (drop start chunk) outcome.unstable_verifier s s'

  -- Where a step of the loop stands.
  abbrev Stands : List ℕ → ℕ → ℕ → ℕ → WriteOutcome → Type 0
  Stands chunk fuel start offset outcome =
      (start ≤ length chunk)
      × (length chunk ≤ start + fuel)
      × (outcome.bytes_written ≡ start)
      × (offset + length chunk < u64_limit + start)
      × (length chunk < u64_limit)

  -- A piece that the server took in, and what the rest of the loop does.
  after_piece :
      (chunk : List ℕ) (start offset written size : ℕ) (reply : WriteData)
      (outcome out : WriteOutcome) (s s1 s3 s4 : server.State)
      → written ≤ size
      → written ≡ reply.count
      → written ≤ length (take size (drop start chunk))
      → s3 ≡ s1
      → Extends (at_risk reply.committed reply.verifier) outcome.unstable_verifier
      → Took offset
          (take size (drop start chunk))
          reply
          (at_risk reply.committed reply.verifier)
          (server.taken s)
          (server.taken s1)
          (server.pending s)
          (server.pending s1)
      → Wrote chunk (start + written) (offset + written) outcome s3 out s4
      → Holds server offset (drop start chunk) out.unstable_verifier s s4
  after_piece chunk start offset written size reply outcome out s s1 s3 s4 short e fits same x took
        q =
      let first : IsWritten offset (take written (take size (drop start chunk))) (server.taken s)
            (server.taken s1)
          × Marks offset written out.unstable_verifier (server.pending s) (server.pending s1) =
        Took-at server offset written (take size (drop start chunk)) reply
          (at_risk reply.committed reply.verifier) out.unstable_verifier s s1 e fits
          (Extends-trans x (q.1)) took in
      then-Holds server chunk start offset written out.unstable_verifier s s1 s4
        (omega (arith, fits, length-take size (drop start chunk)))
        (
          subst (λ bytes. IsWritten offset bytes (server.taken s) (server.taken s1))
              (take-take written size (drop start chunk) short) (first.0),
          first.1,
        )
        (subst
          (λ t.
            Holds server (offset + written) (drop (start + written) chunk) out.unstable_verifier t
              s4)
          same (q.2))

  write_loop-Wrote :
      (chunk : List ℕ) (fuel : ℕ) (outcome : WriteOutcome) (start offset : ℕ) (s : server.State)
      → Stands chunk fuel start offset outcome
      → Ensures (Wrote chunk start offset outcome s) (
          write_loop server.write server.write_and_commit max_write_size chunk fuel outcome start
            offset s)
  unfolding write_loop
  write_loop-Wrote chunk zero outcome start offset s h =
      rw (ge→ltb start (length chunk) (omega arith)) (record {
        holds = (
          omega arith,
          inr refl,
          nothing_held server chunk start offset outcome.unstable_verifier s (omega arith),
        );
      })
  write_loop-Wrote chunk (suc fuel) outcome start offset s h =
      pass (ltb start (length chunk)) refl (write_loop-Wrote chunk fuel)
    where
      pass :
          (b : Bool)
          → ltb start (length chunk) ≡ b
          → ((outcome' : WriteOutcome) (start' offset' : ℕ) (s' : server.State)
              → Stands chunk fuel start' offset' outcome'
              → Ensures (Wrote chunk start' offset' outcome' s') (
                  write_loop server.write server.write_and_commit max_write_size chunk fuel outcome'
                    start' offset' s'))
          → Ensures (Wrote chunk start offset outcome s) (
              (elim b as (λ _. Action Error server.State WriteOutcome) [
                | false ↦ pure outcome
                | true ↦
                    let end = min (start + max_write_size) (length chunk) in
                    let remaining = take (end - start) (drop start chunk) in
                    do
                      reply ← server.write offset remaining
                      written ← lift (validate_write_reply reply (length remaining))
                      outcome' ← lift (merge outcome (from_write reply written))
                      offset' ← lift (add_u64 offset written)
                      write_loop server.write server.write_and_commit max_write_size chunk fuel
                          outcome'
                          (start + written)
                          offset'
              ])
                s)
      pass false e rest = record {
        holds = (
          ground arith,
          inr refl,
          nothing_held server chunk start offset outcome.unstable_verifier s (ground arith),
        );
      }
      pass true e rest =
          let size = min (start + max_write_size) (length chunk) - start in
          server.write_takes offset (take size (drop start chunk)) s ▹ λ reply s1 w.
          validate_write_reply-Ensures reply (length (take size (drop start chunk))) s1
          ▹ λ written s2 v.
              let short : written ≤ size =
                omega (arith, v.2, length-take size (drop start chunk)) in
              let inside : start + written ≤ length chunk =
                omega (arith, v.2, length-take size (drop start chunk), length-drop start chunk) in
              merge-Ensures outcome (from_write reply written) s2
                (omega (arith, h, inside, from_write-bytes_written reply written))
              ▹ λ outcome' s3 m. rw (add_u64-eq offset written (omega (arith, h, inside))) (
                  Ensures-weaken _
                    (rest outcome' (start + written) (offset + written) s3 (
                      inside,
                      omega (arith, v.1, h),
                      omega (arith, (m.0).0, h, from_write-bytes_written reply written),
                      omega (arith, h),
                      omega (arith, h),
                    ))
                    λ out s4 q. (
                      q.0,
                      Extends-trans ((m.0).1) (q.1),
                      after_piece chunk start offset written size reply outcome' out s s1 s3 s4
                          short (v.0) (v.2) (m.1 ∙ v.3)
                          (subst (λ u. Extends u outcome'.unstable_verifier)
                            (from_write-at_risk reply written) ((m.0).2))
                          w q,
                    ))

  -- Writing a chunk, whose range has an end that is a `u64`, in pieces of at most `max_write_size` bytes,
  -- each sent again from where the server stopped, neither panics nor runs out of its fuel, and if it
  -- succeeds, the chunk is stored.
  pub write_chunk_all-IsStored :
      (offset : ℕ) (chunk : List ℕ) (s : server.State)
      → offset + length chunk < u64_limit
      → Ensures
          (Stored server chunk offset s)
          (write_chunk_all server.write server.write_and_commit max_write_size offset chunk s)
  unfolding write_chunk_all
  write_chunk_all-IsStored offset chunk s h =
      Ensures-weaken _
        (write_loop-Wrote chunk (length chunk) default_outcome 0 offset s
          (omega arith, omega arith, refl, omega arith, omega arith))
        λ outcome s' q. Holds-Stored server chunk offset s outcome s' (q.0) (q.2)

  -- What the first reply counted, and what was written behind it, for an outcome that extends both.
  both_parts :
      (chunk : List ℕ) (offset written : ℕ) (reply : WriteData) (v w : Option (List ℕ))
      (s s1 s2 : server.State)
      → written ≡ reply.count
      → written ≤ length chunk
      → Extends (at_risk reply.committed reply.verifier) w
      → Extends v w
      → Took offset chunk reply
          (at_risk reply.committed reply.verifier)
          (server.taken s)
          (server.taken s1)
          (server.pending s)
          (server.pending s1)
      → Holds server (offset + written) (drop written chunk) v s1 s2
      → Holds server offset chunk w s s2
  both_parts chunk offset written reply v w s s1 s2 e fits x y took rest =
      then-Holds server chunk 0 offset written w s s1 s2 fits
        (Took-at server offset written chunk reply (at_risk reply.committed reply.verifier) w s s1 e
          fits x took)
        (subst (λ k. Holds server (offset + written) (drop k chunk) w s1 s2)
          (let z : written ≡ 0 + written = omega arith in z)
          (
            rest.0,
            Marks-extend (offset + written) (length (drop written chunk)) v w (server.pending s1)
                (server.pending s2) y (rest.1),
          ))

  -- Writing a chunk, whose range has an end that is a `u64`, by one request for all of it and then, where
  -- the server took in less, by more for the rest neither panics nor runs out of its fuel. If it
  -- succeeds, the outcome counts every byte, and the server took in the whole chunk from the offset on
  -- and nothing else; and where the outcome has no verifier, or the one that the server has then, the
  -- file reads as the chunk, before and after a reboot.
  pub write_chunk-IsStored :
      (offset : ℕ) (chunk : List ℕ) (s : server.State)
      → offset + length chunk < u64_limit
      → Ensures
          (Stored server chunk offset s)
          (write_chunk server.write server.write_and_commit max_write_size offset chunk s)
  unfolding write_chunk
  write_chunk-IsStored offset chunk s h = server.write_takes offset chunk s ▹ λ reply s1 w.
      validate_write_reply-Ensures reply (length chunk) s1 ▹ λ written s2 v.
      onward reply written s1 s2 v w (written == length chunk) refl
    where
      onward :
          (reply : WriteData) (written : ℕ) (s1 s2 : server.State)
          → (written ≡ reply.count) × (0 < written) × (written ≤ length chunk) × (s2 ≡ s1)
          → Took offset chunk reply
              (at_risk reply.committed reply.verifier)
              (server.taken s)
              (server.taken s1)
              (server.pending s)
              (server.pending s1)
          → (b : Bool) → (written == length chunk) ≡ b
          → Ensures (Stored server chunk offset s) (
              (if b then pure (from_write reply written) else (do
                rest_offset ← lift (add_u64 offset written)
                rest ←
                    write_chunk_all server.write server.write_and_commit max_write_size rest_offset
                      (drop written chunk)
                lift (merge (from_write reply written) rest)))
                s2)
      onward reply written s1 s2 v w true e = record {
        holds =
            Holds-Stored server chunk offset s (from_write reply written) s2
              (from_write-bytes_written reply written ∙ (==_iff _ _).0 e)
              (both_parts chunk offset written reply (at_risk reply.committed reply.verifier)
                (from_write reply written).unstable_verifier s s1 s2 (v.0) (v.2)
                (inr (sym (from_write-at_risk reply written)))
                (inr (sym (from_write-at_risk reply written))) w
                (subst
                  (λ t.
                    Holds server (offset + written) (drop written chunk)
                      (at_risk reply.committed reply.verifier) s1 t)
                  (sym (v.3))
                  (nothing_held server chunk written (offset + written)
                    (at_risk reply.committed reply.verifier) s1 (ground arith))));
      }
      onward reply written s1 s2 v w false e =
          rw (add_u64-eq offset written (omega (arith, h, v.2))) (
            write_chunk_all-IsStored (offset + written) (drop written chunk) s2
              (omega (arith, h, v.2, length-drop written chunk))
            ▹ λ rest s3 q.
                Ensures-weaken _
                  (merge-Ensures (from_write reply written) rest s3 (
                    omega (
                      arith,
                      h,
                      v.2,
                      q.0,
                      from_write-bytes_written reply written,
                      length-drop written chunk,
                    )))
                  λ out s4 m.
                    Holds-Stored server chunk offset s out s4
                      (omega (
                        arith,
                        (m.0).0,
                        q.0,
                        v.2,
                        from_write-bytes_written reply written,
                        length-drop written chunk,
                      ))
                      (both_parts chunk offset written reply rest.unstable_verifier
                        out.unstable_verifier s s1 s4 (v.0) (v.2)
                        (subst (λ u. Extends u out.unstable_verifier)
                          (from_write-at_risk reply written) ((m.0).1))
                        ((m.0).2) w
                        (subst
                          (λ t.
                            Holds server (offset + written) (drop written chunk)
                              rest.unstable_verifier s1 t)
                          (sym (m.1))
                          (subst
                            (λ t.
                              Holds server (offset + written) (drop written chunk)
                                rest.unstable_verifier t s3)
                            (v.3) (q.1)))))
