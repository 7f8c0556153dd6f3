-- ===== src/Nfs4/Replies/Complete.antt =====
-- src/nfs4/codec.rs: when decoding the reply of a compound succeeds, the server replied to every
-- operation of the compound and reported success.
use nfs_crust.Prelude.{
  ℕ, ◌+◌, ◌/◌, ◌≤◌, ◌<◌, ◌≡◌, ◌≢◌, ◌&&◌, ◌==◌, ==_iff, refl, sym, ◌∙◌, Bool, true, false, Option,
  none, some, List, arith, ltb, inl, inr, Bool-cases, if◌then◌else◌,
}
use nfs_crust.Result.{Result, ok, err, panic}
use nfs_crust.Result.Action.{
  Ensures, Ensures-known, lift, Ensures-weaken, Ensures-ne-panic, ◌▹◌, and_then,
}
use nfs_crust.Xdr.ByteBuf.{ByteBuf}
use nfs_crust.Xdr.Decoder.{read_bytes}
use nfs_crust.Xdr.Decoder.Moves.{read_bytes_moves, read_u32_pair_moves}
use nfs_crust.Xdr.Decoder.MovesOpaque.{read_u32_skip_opaque_and_read_u32_moves}
use nfs_crust.Error.{Error}
use nfs_crust.Nfs4.OpCode.{OpCode, to_u32, from_u32}
use nfs_crust.Nfs4.OpCode.Laws.{from_u32-ne-panic}
use nfs_crust.Nfs4.Status.{is_ok, op_illegal}
use nfs_crust.Nfs4.Body.{decode_read_data, decode_write_data}
use nfs_crust.Nfs4.Body.Moves.{remaining_moves, read_data_moves, write_data_moves}
use nfs_crust.Nfs4.Replies.{
  CompoundDecodeError, CompoundReplies, Walk, drop_walk, protocol_failure, is_present,
  decode_compound_header, with_replies, read_header, require_ok, unexpected,
  validate_expected_reply_op, decode_expected_op,
}
use nfs_crust.Nfs4.Replies.Moves.{
  Anything, header_safe, Further, IsSafe, finish_moves, advance_moves, sequence_moves, result_moves,
  lookups_moves, getfh_moves, link_remove_publish_moves,
}
use nfs_crust.Nfs4.Replies.Compounds.{
  included, require_seen, decode_read_compound, decode_write_commit_compound, decode_getfh_compound,
  decode_link_remove_publish_compound, decode_read_path_handle_compound,
}

-- The header of the reply reports success and this many replies.
abbrev pub IsComplete : ⦃b : ByteBuf⦄ → ℕ → List ℕ → Type 0
IsComplete n s = (rest : List ℕ) × (decode_compound_header s ≡ ok ((0, n), rest))

-- What a walk has to ensure: all replies are there, and the status is good.
abbrev pub IsWhole : CompoundReplies → CompoundReplies → Type 0
IsWhole r r' = (r.status ≡ 0) × (r.reply_count ≡ r.expected_replies)

included_moves :
    {A : Type 0} (o : Option A) (r : CompoundReplies)
    → Ensures (λ _ r'. is_present o ≡ true) (included o r)
included_moves none r = record { holds = tt }
included_moves (some a) r = record { holds = refl }

pub require_seen_moves :
    (seen : Bool) (r : CompoundReplies) → Ensures (λ _ r'. seen ≡ true) (require_seen seen r)
require_seen_moves false r = record { holds = tt }
require_seen_moves true r = record { holds = refl }

drop_walk-Ensures :
    {A : Type 0} {P : Type 0} (x : Result CompoundDecodeError (A × CompoundReplies))
    → Ensures (λ _ _. P) x
    → Ensures (λ _ _. P) (drop_walk x)
drop_walk-Ensures (ok (a, r)) h = record { holds = h.holds }
drop_walk-Ensures (err e) h = record { holds = tt }
drop_walk-Ensures panic h = absurd h.holds

module _ ⦃b : ByteBuf⦄ where
  read_data-IsSafe : IsSafe decode_read_data
  read_data-IsSafe s = Ensures-ne-panic _ (read_data_moves s)

  compound_header_moves : (s : List ℕ) → Ensures Anything (decode_compound_header s)
  unfolding decode_compound_header
  compound_header_moves s = header_safe _ (
      Ensures-ne-panic Anything (
        read_u32_skip_opaque_and_read_u32_moves s ▹ λ w s1 h1. remaining_moves s1 ▹ λ left s2 h2.
        elim (Bool-cases (ltb (left / 8) w.1)) [
          | inl t ↦ rw t (record { holds = tt })
          | inr t ↦ rw t (record { holds = tt })
        ]))

  pub with_replies_moves :
      {A : Type 0} (n : ℕ) (walk : Walk A) (s : List ℕ)
      → ((r : CompoundReplies)
          → r.decoded ≡ 0
          → r.expected_replies ≡ n
          → r.reply_count ≤ n
          → Ensures (λ _ r'. IsWhole r r') (walk r))
      → Ensures (λ _ _. IsComplete n s) (with_replies n walk s)
  unfolding with_replies
  with_replies_moves {A = A} n walk s h =
      onward (decode_compound_header s) refl (compound_header_moves s)
    where
      whole :
          (status count : ℕ) (rest : List ℕ)
          → decode_compound_header s ≡ ok ((status, count), rest)
          → Ensures
              (λ _ _. (status ≡ 0) × (count ≡ n))
              (walk (record {
                dec = rest;
                status = status;
                reply_count = count;
                expected_replies = n;
                decoded = 0;
              }))
          → Ensures
              (λ _ _. IsComplete n s)
              (walk (record {
                dec = rest;
                status = status;
                reply_count = count;
                expected_replies = n;
                decoded = 0;
              }))
      whole status count rest e w = Ensures-weaken _ w λ _ _ q. (rest, cc (e, q.0, q.1))

      onward :
          (x : Result CompoundDecodeError ((ℕ × ℕ) × List ℕ))
          → decode_compound_header s ≡ x
          → Ensures Anything x
          → Ensures
              (λ _ _. IsComplete n s)
              (and_then x (λ x. if ltb n x.1 then protocol_failure else λ s'. drop_walk (
                walk (record {
                  dec = s';
                  status = x.0;
                  reply_count = x.1;
                  expected_replies = n;
                  decoded = 0;
                }))))
      onward (ok ((status, count), rest)) e q = elim (Bool-cases (ltb n count)) [
        | inl t ↦ rw t (record { holds = tt })
        | inr t ↦
            rw t (drop_walk-Ensures _ (whole status count rest e (h _ refl refl (ground arith))))
      ]
      onward (err c) e q = record { holds = tt }
      onward panic e q = absurd q.holds

  read-IsComplete : (s : List ℕ) → Ensures (λ _ _. IsComplete 3 s) (decode_read_compound s)
  unfolding decode_read_compound
  read-IsComplete s = with_replies_moves 3 _ s λ r z e c.
      sequence_moves r (omega arith) ▹ λ _ r1 h1.
      advance_moves OpCode.put_fh r1 (omega arith) ▹ λ _ r2 h2.
      result_moves OpCode.read decode_read_data r2 (omega arith) read_data-IsSafe ▹ λ o r3 h3.
      finish_moves r3 (omega arith) ▹ λ _ r4 h4. Ensures-weaken _ (included_moves o r4) λ _ r5 p.
        let there : r2.decoded < r2.reply_count = ground (arith, sym h3.1 ∙ p) in omega arith

  write_data-IsSafe : IsSafe decode_write_data
  write_data-IsSafe s = Ensures-ne-panic _ (write_data_moves s)

  write_commit-IsComplete :
      (s : List ℕ) → Ensures (λ _ _. IsComplete 4 s) (decode_write_commit_compound s)
  unfolding decode_write_commit_compound
  write_commit-IsComplete s = with_replies_moves 4 _ s λ r z e c.
      sequence_moves r (omega arith) ▹ λ _ r1 h1.
      advance_moves OpCode.put_fh r1 (omega arith) ▹ λ _ r2 h2.
      result_moves OpCode.write decode_write_data r2 (omega arith) write_data-IsSafe ▹ λ w r3 h3.
      result_moves OpCode.commit (read_bytes 8) r3 (omega arith)
        (λ t. Ensures-ne-panic _ (read_bytes_moves 8 t))
      ▹ λ o r4 h4. finish_moves r4 (omega arith) ▹ λ _ r5 h5. included_moves w r5 ▹ λ _ r6 _.
          included_moves o r6 ▹ λ _ r7 p.
          let there : r3.decoded < r3.reply_count = ground (arith, sym h4.1 ∙ p) in
          record { holds = omega arith }

  read_path_handle-IsComplete :
      (n : ℕ) (s : List ℕ)
      → Ensures (λ _ _. IsComplete (4 + n) s) (decode_read_path_handle_compound n s)
  unfolding decode_read_path_handle_compound
  read_path_handle-IsComplete n s = with_replies_moves (4 + n) _ s λ r z e c.
      (sequence_moves r (omega arith) ▹ λ _ r1 h1.
      advance_moves OpCode.put_fh r1 (omega arith) ▹ λ _ r2 h2.
      Ensures-weaken _ (lookups_moves n r2 (omega arith))
        λ _ r' h. enter_moved n r r1 r2 r' h1 h2.0 h)
      ▹ λ _ r3 h3. getfh_moves r3 (omega arith) ▹ λ f r4 h4.
          result_moves OpCode.read decode_read_data r4 (omega arith) read_data-IsSafe ▹ λ o r5 h5.
          finish_moves r5 (omega arith) ▹ λ _ r6 h6. included_moves f r6 ▹ λ _ r7 _.
          included_moves o r7 ▹ λ _ r8 p.
          let there : r4.decoded < r4.reply_count = ground (arith, sym h5.1 ∙ p) in
          record { holds = omega arith }
    where
      enter_moved :
          (n : ℕ) (r r1 r2 r' : CompoundReplies)
          → Further 1 r r1
          → Further 1 r1 r2
          → Further n r2 r'
          → Further (n + 2) r r'
      enter_moved n r r1 r2 r' a b c = omega arith

  getfh-IsComplete :
      (op : OpCode) (n : ℕ) (s : List ℕ)
      → Ensures (λ _ _. IsComplete (3 + n) s) (decode_getfh_compound op n s)
  unfolding decode_getfh_compound
  getfh-IsComplete op n s = with_replies_moves (3 + n) _ s λ r z e c.
      sequence_moves r (omega arith) ▹ λ _ r1 h1. advance_moves op r1 (omega arith) ▹ λ _ r2 h2.
      lookups_moves n r2 (omega arith) ▹ λ _ r3 h3. getfh_moves r3 (omega arith) ▹ λ f r4 h4.
      finish_moves r4 (omega arith) ▹ λ _ r5 h5. Ensures-weaken _ (included_moves f r5) λ _ r6 p.
        let there : r3.decoded < r3.reply_count = ground (arith, sym h4.1 ∙ p) in omega arith

  link_remove_publish-IsComplete :
      (n : ℕ) (s : List ℕ)
      → Ensures (λ _ _. IsComplete (6 + n) s) (decode_link_remove_publish_compound n s)
  unfolding decode_link_remove_publish_compound
  link_remove_publish-IsComplete n s = with_replies_moves (6 + n) _ s λ r z e c.
      sequence_moves r (omega arith) ▹ λ _ r1 h1.
      advance_moves OpCode.put_fh r1 (omega arith) ▹ λ _ r2 h2.
      link_remove_publish_moves n r2 (omega arith) ▹ λ seen r3 h3.
      finish_moves r3 (omega arith) ▹ λ _ r4 h4.
      Ensures-weaken _ (require_seen_moves seen r4)
        λ _ r5 p. let there : r2.decoded + (n + 4) ≤ r2.reply_count = h3.1 p in omega arith

  -- The next reply is to the operation, and reports success.
  abbrev pub IsReplyTo : OpCode → List ℕ → List ℕ → Type 0
  IsReplyTo op s s' = read_header s ≡ ok ((to_u32 op, 0), s')

  reply_to :
      (op : OpCode) (w : ℕ × ℕ) (s s1 : List ℕ)
      → read_header s ≡ ok (w, s1)
      → w.0 ≡ to_u32 op
      → Ensures (λ _ s'. IsReplyTo op s s') (require_ok w.1 op s1)
  reply_to op w s s1 h e = elim (Bool-cases (is_ok w.1)) [
    | inl t ↦
        let f : w.1 ≡ 0 = (==_iff w.1 0).0 t in
        rw t (record { holds = h ∙ λ i. ok ((e i, f i), s1) })
    | inr t ↦ rw t (record { holds = tt })
  ]

  no_operation :
      (r : Result Error OpCode) (s : List ℕ)
      → r ≢ panic
      → Ensures (λ _ _. ⊥) (lift (unexpected r) s)
  no_operation (ok op) s h = record { holds = tt }
  no_operation (err e) s h = record { holds = tt }
  no_operation panic s h = absurd (h refl)

  illegal_fails :
      (status : ℕ) (s : List ℕ) {Q : Unit {0} → List ℕ → Type 0}
      → status ≡ op_illegal
      → Ensures Q (require_ok status OpCode.illegal s)
  illegal_fails status s h =
      let bad : is_ok status ≡ false = ground arith in rw bad (record { holds = tt })

  read_header_safe : (s : List ℕ) → Ensures Anything (read_header s)
  unfolding read_header
  read_header_safe s = header_safe _ (Ensures-ne-panic _ (read_u32_pair_moves s))

  decode_expected_op-IsReplyTo :
      (op : OpCode) (s : List ℕ) → Ensures (λ _ s'. IsReplyTo op s s') (decode_expected_op op s)
  unfolding decode_expected_op validate_expected_reply_op
  decode_expected_op-IsReplyTo op s = Ensures-known _ (read_header_safe s) ▹ λ w s1 h1.
      elim (Bool-cases (w.0 == to_u32 op)) [
        | inl t ↦ rw t (reply_to op w s s1 h1.0 ((==_iff _ _).0 t))
        | inr t ↦ rw t (elim (Bool-cases (w.0 == to_u32 OpCode.illegal && w.1 == op_illegal)) [
          | inl u ↦ rw u (illegal_fails w.1 s1 (ground arith))
          | inr u ↦
              rw u (no_operation (from_u32 w.0) s1 (from_u32-ne-panic w.0) ▹ λ _ s2 h2. absurd h2)
        ])
      ]

  -- On no bytes does decoding the reply of one of these compounds panic: the READ of a handle, WRITE with
  -- COMMIT, the lookup of a handle, the READ by path with its handle, and the publication by LINK and
  -- REMOVE. When it succeeds, the header reports success and exactly as many replies as the compound has
  -- operations; and a step that expects an operation succeeds only on a reply to that operation that
  -- reports success.
  pub compounds-IsComplete :
      (op : OpCode) (n : ℕ) (s : List ℕ)
      → Ensures (λ _ _. IsComplete 3 s) (decode_read_compound s)
        × Ensures (λ _ _. IsComplete 4 s) (decode_write_commit_compound s)
        × Ensures (λ _ _. IsComplete (3 + n) s) (decode_getfh_compound op n s)
        × Ensures (λ _ _. IsComplete (4 + n) s) (decode_read_path_handle_compound n s)
        × Ensures (λ _ _. IsComplete (6 + n) s) (decode_link_remove_publish_compound n s)
        × ((expected : OpCode) (t : List ℕ)
            → Ensures (λ _ t'. IsReplyTo expected t t') (decode_expected_op expected t))
  compounds-IsComplete op n s = (
    read-IsComplete s,
    write_commit-IsComplete s,
    getfh-IsComplete op n s,
    read_path_handle-IsComplete n s,
    link_remove_publish-IsComplete n s,
    decode_expected_op-IsReplyTo,
  )
