-- ===== src/Nfs4/Replies/Sequence/Moves.antt =====
-- src/nfs4/codec.rs: an accepted result of SEQUENCE is the reply to its request.
use nfs_crust.Prelude.{
  sym, ◌∙◌, ==_iff, ℕ, ◌≢◌, ◌≡◌, refl, if◌then◌else◌, Bool, true, false, List, arith, ◌==◌, inl,
  inr, Bool-cases,
}
use nfs_crust.Result.{Result, ok, err, panic}
use nfs_crust.Result.Action.{Ensures, Ensures-known, Ensures-weaken, lift, pure, fail, ◌▹◌}
use nfs_crust.Error.{Error}
use nfs_crust.Error.Classify.{nfs_error}
use nfs_crust.Xdr.ByteBuf.{ByteBuf}
use nfs_crust.Xdr.Decoder.{read_u32, read_u32_pair, read_bytes, read_u32_skip_opaque_and_read_u32}
use nfs_crust.Xdr.Decoder.Moves.{read_u32_moves, read_u32_pair_moves, read_bytes_moves}
use nfs_crust.Xdr.Decoder.MovesOpaque.{read_u32_skip_opaque_and_read_u32_moves}
use nfs_crust.Nfs4.OpCode.{OpCode, to_u32, from_u32}
use nfs_crust.Nfs4.OpCode.Laws.{from_u32-ne-panic}
use nfs_crust.Nfs4.Status.{is_ok}
use nfs_crust.Nfs4.Body.{same_bytes}
use nfs_crust.Nfs4.Body.Bytes.{same_bytes-eq}
use nfs_crust.Nfs4.Replies.Sequence.{
  SequenceResult, began_with, same_or_protocol, empty_reply, sequence_header, sequence_body,
  decode_sequence_result,
}

began_with_moves :
    (r : Result Error OpCode) (s : List ℕ) → r ≢ panic → Ensures (λ _ _. ⊥) (lift (began_with r) s)
began_with_moves (ok op) s h = record { holds = tt }
began_with_moves (err e) s h = record { holds = tt }
began_with_moves panic s h = absurd (h refl)

same_moves :
    (same : Bool) (s : List ℕ)
    → Ensures (λ _ s'. (s' ≡ s) × (same ≡ true)) (same_or_protocol same s)
same_moves true s = record { holds = (refl, refl) }
same_moves false s = record { holds = tt }

empty_reply_moves :
    (status : ℕ) (s : List ℕ) {Q : SequenceResult → List ℕ → Type 0}
    → Ensures Q (empty_reply status s)
unfolding empty_reply
empty_reply_moves status s = elim (Bool-cases (is_ok status)) [
  | inl t ↦ rw t (record { holds = tt })
  | inr t ↦ rw t (record { holds = tt })
]

module _ ⦃b : ByteBuf⦄ where
  -- The bytes are those of a reply to the request: the SEQUENCE operation with no error, the session id,
  -- the sequence id and the slot id of the request, and then the three numbers that are returned.
  pub record IsReply (id : List ℕ) (q slot : ℕ) (s : List ℕ) (r : SequenceResult) (left : List ℕ)
      : Type 0 where
    pub header : List ℕ
    pub began : read_u32_pair s ≡ ok ((to_u32 OpCode.sequence, 0), header)
    pub after_id : List ℕ
    pub same_id : read_bytes 16 header ≡ ok (id, after_id)
    pub after_sequence : List ℕ
    pub same_sequence : read_u32 after_id ≡ ok (q, after_sequence)
    pub after_slot : List ℕ
    pub same_slot : read_u32 after_sequence ≡ ok (slot, after_slot)
    pub after_highest : List ℕ
    pub highest : read_u32 after_slot ≡ ok (r.highest_slotid, after_highest)
    pub after_target : List ℕ
    pub target : read_u32 after_highest ≡ ok (r.target_highest_slotid, after_target)
    pub flags : read_u32 after_target ≡ ok (r.status_flags, left)

  header_status_moves :
      (status : ℕ) (s : List ℕ)
      → Ensures
          (λ _ s'. (s' ≡ s) × (status ≡ 0))
          ((if is_ok status then pure tt else fail (nfs_error status OpCode.sequence)) s)
  header_status_moves status s = elim (Bool-cases (is_ok status)) [
    | inl t ↦ rw t (record { holds = (refl, (==_iff status 0).0 t) })
    | inr t ↦ rw t (record { holds = tt })
  ]

  pair_at :
      (w : ℕ × ℕ) (n m : ℕ) (s t u : List ℕ)
      → read_u32_pair s ≡ ok (w, t)
      → w.0 ≡ n
      → w.1 ≡ m
      → u ≡ t
      → read_u32_pair s ≡ ok ((n, m), u)
  pair_at w n m s t u h e f g = h ∙ λ i. ok ((e i, f i), sym g i)

  header_moves :
      (s : List ℕ)
      → Ensures (λ _ s'. read_u32_pair s ≡ ok ((to_u32 OpCode.sequence, 0), s')) (sequence_header s)
  unfolding sequence_header
  header_moves s = Ensures-known _ (read_u32_pair_moves s) ▹ λ w s1 h1.
      elim (Bool-cases (w.0 == to_u32 OpCode.sequence)) [
        | inl t ↦ rw t (
            Ensures-weaken _ (header_status_moves w.1 s1)
              λ _ s2 h2. pair_at w _ _ s s1 s2 h1.0 ((==_iff _ _).0 t) h2.1 h2.0)
        | inr t ↦
            rw t (began_with_moves (from_u32 w.0) s1 (from_u32-ne-panic w.0) ▹ λ _ s2 h2. absurd h2)
      ]

  swap_at :
      {A : Type 0} {r : Result Error (A × List ℕ)} {t : List ℕ} (a c : A)
      → r ≡ ok (a, t)
      → a ≡ c
      → r ≡ ok (c, t)
  swap_at {t = t} a c h e = h ∙ λ i. ok (e i, t)

  body_moves :
      (id : List ℕ) (q slot : ℕ) (s0 s : List ℕ)
      → read_u32_pair s0 ≡ ok ((to_u32 OpCode.sequence, 0), s)
      → Ensures (IsReply id q slot s0) (sequence_body id q slot s)
  unfolding sequence_body
  body_moves id q slot s0 s began = Ensures-known _ (read_bytes_moves 16 s) ▹ λ sessionid s1 h1.
      Ensures-known _ (read_u32_moves s1) ▹ λ sequenceid s2 h2.
      Ensures-known _ (read_u32_moves s2) ▹ λ slotid s3 h3.
      Ensures-known _ (read_u32_moves s3) ▹ λ highest s4 h4.
      Ensures-known _ (read_u32_moves s4) ▹ λ target s5 h5.
      Ensures-known _ (read_u32_moves s5) ▹ λ flags s6 h6.
      same_moves (same_bytes sessionid id) s6 ▹ λ _ s7 h7.
      same_moves (sequenceid == q) s7 ▹ λ _ s8 h8. same_moves (slotid == slot) s8 ▹ λ _ s9 h9.
      record {
        holds = record {
          header = s;
          began = began;
          after_id = s1;
          same_id = swap_at sessionid id h1.0 (same_bytes-eq sessionid id h7.1);
          after_sequence = s2;
          same_sequence = swap_at sequenceid q h2.0 ((==_iff _ _).0 h8.1);
          after_slot = s3;
          same_slot = swap_at slotid slot h3.0 ((==_iff _ _).0 h9.1);
          after_highest = s4;
          highest = h4.0;
          after_target = s5;
          target = h5.0;
          flags = h6.0 ∙ λ i. ok (flags, sym (h9.0 ∙ h8.0 ∙ h7.0) i);
        };
      }

  -- The reply has a status, a tag and a number of replies, not zero, and goes on as the request expects.
  abbrev pub IsResult : List ℕ → ℕ → ℕ → List ℕ → SequenceResult → List ℕ → Type 0
  IsResult id q slot s r left =
      (w : ℕ × ℕ) × (s1 : List ℕ) × (read_u32_skip_opaque_and_read_u32 s ≡ ok (w, s1))
      × (w.1 ≢ 0)
      × IsReply id q slot s1 r left

  -- On no bytes does decoding the result of SEQUENCE panic. If it succeeds, the compound has at least one
  -- reply, the first is SEQUENCE with no error, with the session id, the sequence id and the slot id of
  -- the request, and the three numbers that are returned are those that follow.
  pub decode_sequence_result-IsResult :
      (id : List ℕ) (q slot : ℕ) (s : List ℕ)
      → Ensures (IsResult id q slot s) (decode_sequence_result id q slot s)
  unfolding decode_sequence_result
  decode_sequence_result-IsResult id q slot s =
      Ensures-known _ (read_u32_skip_opaque_and_read_u32_moves s) ▹ λ w s1 h1.
      elim (Bool-cases (w.1 == 0)) [
        | inl t ↦ rw t (empty_reply_moves w.0 s1)
        | inr t ↦ rw t (
            header_moves s1 ▹ λ _ s2 h2.
            Ensures-weaken _ (body_moves id q slot s1 s2 h2)
              λ r left k. (w, s1, h1.0, ground arith, k))
      ]
