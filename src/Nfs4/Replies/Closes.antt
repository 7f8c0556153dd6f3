-- ===== src/Nfs4/Replies/Closes.antt =====
-- src/nfs4/codec.rs: a batch of CLOSE operations succeeds as a whole.
use nfs_crust.Prelude.{
  ℕ, zero, suc, ◌+◌, ◌*◌, ◌≤◌, ◌<◌, ◌≡◌, refl, sym, ◌∙◌, Bool, true, false, List, arith, ◌==◌, inl,
  inr, Bool-cases,
}
use nfs_crust.Prelude.Words.{u64_limit, saturating_add, saturating_mul}
use nfs_crust.Result.Action.{Ensures, Ensures-weaken, Ensures-ne-panic, ◌▹◌}
use nfs_crust.Xdr.ByteBuf.{ByteBuf}
use nfs_crust.Nfs4.OpCode.{OpCode}
use nfs_crust.Nfs4.Body.{skip_stateid}
use nfs_crust.Nfs4.Body.Moves.{skip_stateid_moves}
use nfs_crust.Nfs4.Replies.{CompoundReplies}
use nfs_crust.Nfs4.Replies.Moves.{
  Further, IsOn, finish_moves, advance_moves, sequence_moves, on_dec_moves,
}
use nfs_crust.Nfs4.Replies.Complete.{IsComplete, with_replies_moves, require_seen_moves}
use nfs_crust.Nfs4.Replies.Publish.{skip_stateid_if, count_closes, decode_close_batch_compound}

module _ ⦃b : ByteBuf⦄ where
  skip_stateid_if_moves :
      (p : Bool) (r : CompoundReplies)
      → IsOn r
      → Ensures (λ _ r'. Further 0 r r') (skip_stateid_if p r)
  skip_stateid_if_moves true r h =
      on_dec_moves skip_stateid r h (λ s. Ensures-ne-panic _ (skip_stateid_moves s))
  skip_stateid_if_moves false r h = record { holds = (refl, refl, omega arith) }

  -- Every CLOSE that is counted took two replies.
  count_closes_moves :
      (n : ℕ) (r : CompoundReplies)
      → IsOn r
      → Ensures
          (λ k r'. Further (n + n) r r' × (r.decoded + (k + k) ≤ r.reply_count))
          (count_closes n r)
  unfolding count_closes
  count_closes_moves zero r h = record { holds = ((refl, refl, omega arith), omega arith) }
  count_closes_moves (suc n) r h = advance_moves OpCode.put_fh r h ▹ λ _ r1 h1.
      advance_moves OpCode.close r1 (omega arith) ▹ λ p r2 h2.
      skip_stateid_if_moves p r2 (omega arith) ▹ λ _ r3 h3.
      count_closes_moves n r3 (omega arith) ▹ λ k r4 h4. elim (Bool-cases p) [
        | inl t ↦
            let there : r1.decoded < r1.reply_count = ground (arith, sym h2.1 ∙ t) in
            rw t (record { holds = (omega arith, omega arith) })
        | inr t ↦
            let used : r1.reply_count ≤ r1.decoded = ground (arith, sym h2.1 ∙ t) in
            rw t (record { holds = (omega arith, omega arith) })
      ]

  -- On no bytes does decoding the reply to a batch of CLOSE operations panic, and when it succeeds for
  -- a batch that is not empty and whose length does not saturate, the header reports success and the
  -- replies to SEQUENCE and to both operations of every pair.
  pub decode_close_batch_compound-IsComplete :
      (n : ℕ) (s : List ℕ)
      → 0 < n
      → n * 2 + 1 < u64_limit
      → Ensures (λ _ _. IsComplete (1 + n * 2) s) (decode_close_batch_compound n s)
  unfolding decode_close_batch_compound
  decode_close_batch_compound-IsComplete n s pos fits =
      let count : saturating_add 1 (saturating_mul n 2) ≡ 1 + n * 2 = omega arith in
      rw count (
        with_replies_moves (1 + n * 2) _ s λ r z e c. sequence_moves r (omega arith) ▹ λ _ r1 h1.
        count_closes_moves n r1 (omega arith) ▹ λ k r2 h2.
        finish_moves r2 (omega arith) ▹ λ _ r3 h3.
        Ensures-weaken _ (require_seen_moves (k == n) r3)
          λ _ r4 p. let all : k ≡ n = ground (arith, p) in omega arith)
