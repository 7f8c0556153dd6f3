-- ===== src/Tests/Replies.antt =====
-- Replies to compounds of src/nfs4/codec.rs on concrete bytes.
use nfs_crust.Prelude.{
  ℕ, none, true, ◌++◌, length, ltb, ◌+◌, ◌*◌, arith, ◌≡◌, ◌&&◌, not, some, List, [], ◌∷◌,
}
use nfs_crust.Result.Action.{Ensures}
use nfs_crust.Error.Classify.{nfs_error}
use nfs_crust.Xdr.ListBuf.{list_buf}
use nfs_crust.Nfs4.OpCode.{OpCode}
use nfs_crust.Nfs4.Status.{delay}
use nfs_crust.Nfs4.Ops.{NfsOp}
use nfs_crust.Nfs4.Replies.{CompoundDecodeError, decode_expected_op}
use nfs_crust.Nfs4.Session.{continues_after}
use nfs_crust.Nfs4.Replies.Retry.{has_unrepeatable, is_transient, next_attempt, continues_after_lem}
use nfs_crust.Nfs4.Replies.Compounds.{
  decode_read_compound, decode_write_commit_compound, decode_getfh_compound,
  decode_link_remove_publish_compound, decode_read_path_handle_compound,
}
use nfs_crust.Nfs4.Replies.Sequence.{decode_sequence_result}
use nfs_crust.Nfs4.Replies.Sequence.Moves.{IsResult, decode_sequence_result-IsResult}
use nfs_crust.Nfs4.Replies.Publish.{decode_close_batch_compound}
use nfs_crust.Nfs4.Replies.Closes.{decode_close_batch_compound-IsComplete}
use nfs_crust.Nfs4.Replies.Complete.{IsComplete, IsReplyTo, compounds-IsComplete}

-- SEQUENCE, PUTFH and a READ of two bytes at the end of the file.
abbrev read_reply : List ℕ
read_reply =
    0 ∷ 0 ∷ 0 ∷ 0 ∷ 0 ∷ 0 ∷ 0 ∷ 0 ∷ 0 ∷ 0 ∷ 0 ∷ 3 ∷ 0 ∷ 0 ∷ 0 ∷ 53 ∷ 0 ∷ 0 ∷ 0 ∷ 0 ∷ 0 ∷ 0 ∷ 0 ∷ 0
    ∷ 0 ∷ 0 ∷ 0 ∷ 0 ∷ 0 ∷ 0 ∷ 0 ∷ 0 ∷ 0 ∷ 0 ∷ 0 ∷ 1 ∷ 0 ∷ 0 ∷ 0 ∷ 1 ∷ 0 ∷ 0 ∷ 0 ∷ 0 ∷ 0 ∷ 0 ∷ 0 ∷ 63
    ∷ 0 ∷ 0 ∷ 0 ∷ 63 ∷ 0 ∷ 0 ∷ 0 ∷ 0 ∷ 0 ∷ 0 ∷ 0 ∷ 22 ∷ 0 ∷ 0 ∷ 0 ∷ 0 ∷ 0 ∷ 0 ∷ 0 ∷ 25 ∷ 0 ∷ 0 ∷ 0
    ∷ 0 ∷ 0 ∷ 0 ∷ 0 ∷ 1 ∷ 0 ∷ 0 ∷ 0 ∷ 2 ∷ 104 ∷ 105 ∷ 0 ∷ 0 ∷ []

compounds-IsComplete_example :
    Ensures (λ _ _. IsComplete 3 read_reply) (decode_read_compound read_reply)
    × Ensures (λ _ _. IsComplete 4 read_reply) (decode_write_commit_compound read_reply)
    × Ensures
        (λ _ _. IsComplete (3 + 1) read_reply)
        (decode_getfh_compound OpCode.put_fh 1 read_reply)
    × Ensures (λ _ _. IsComplete (4 + 1) read_reply) (decode_read_path_handle_compound 1 read_reply)
    × Ensures
        (λ _ _. IsComplete (6 + 1) read_reply)
        (decode_link_remove_publish_compound 1 read_reply)
    × ((expected : OpCode) (t : List ℕ)
        → Ensures (λ _ t'. IsReplyTo expected t t') (decode_expected_op expected t))
compounds-IsComplete_example = compounds-IsComplete OpCode.put_fh 1 read_reply

-- A publication whose REMOVE, behind its LINK, was answered with DELAY.
abbrev before_remove : List NfsOp
before_remove = NfsOp.put_fh (5 ∷ []) ∷ NfsOp.save_fh ∷ NfsOp.link (98 ∷ []) ∷ []

abbrev remove : NfsOp
remove = NfsOp.remove (97 ∷ [])

abbrev delayed_remove : CompoundDecodeError
delayed_remove = record {
  status = some delay;
  reply_index = some 4;
  error = nfs_error delay OpCode.remove;
}

continues_after_lem_example :
    (continues_after true 3
        (before_remove ++ remove ∷ [])
        (record delayed_remove { reply_index = some (length before_remove + 1) })
        1
      ≡ next_attempt
          (true && (is_transient (some delay) && (ltb 1 3 && not (has_unrepeatable before_remove))))
          1)
    × (continues_after true 3
          (before_remove ++ remove ∷ [])
          (record delayed_remove { reply_index = some 0 })
          1
        ≡ next_attempt (true && (is_transient (some delay) && ltb 1 3)) 1)
    × (continues_after true 3
          (before_remove ++ remove ∷ [])
          (record delayed_remove { reply_index = none })
          1
        ≡ none)
continues_after_lem_example =
    continues_after_lem true 3 1 (some delay) (nfs_error delay OpCode.remove) before_remove []
      remove

-- SEQUENCE, and one pair of PUTFH and CLOSE.
abbrev close_reply : List ℕ
close_reply =
    0 ∷ 0 ∷ 0 ∷ 0 ∷ 0 ∷ 0 ∷ 0 ∷ 0 ∷ 0 ∷ 0 ∷ 0 ∷ 3 ∷ 0 ∷ 0 ∷ 0 ∷ 53 ∷ 0 ∷ 0 ∷ 0 ∷ 0 ∷ 0 ∷ 0 ∷ 0 ∷ 0
    ∷ 0 ∷ 0 ∷ 0 ∷ 0 ∷ 0 ∷ 0 ∷ 0 ∷ 0 ∷ 0 ∷ 0 ∷ 0 ∷ 1 ∷ 0 ∷ 0 ∷ 0 ∷ 1 ∷ 0 ∷ 0 ∷ 0 ∷ 0 ∷ 0 ∷ 0 ∷ 0 ∷ 63
    ∷ 0 ∷ 0 ∷ 0 ∷ 63 ∷ 0 ∷ 0 ∷ 0 ∷ 0 ∷ 0 ∷ 0 ∷ 0 ∷ 22 ∷ 0 ∷ 0 ∷ 0 ∷ 0 ∷ 0 ∷ 0 ∷ 0 ∷ 4 ∷ 0 ∷ 0 ∷ 0
    ∷ 0 ∷ 0 ∷ 0 ∷ 0 ∷ 1 ∷ 0 ∷ 0 ∷ 0 ∷ 0 ∷ 0 ∷ 0 ∷ 0 ∷ 0 ∷ 0 ∷ 0 ∷ 0 ∷ 0 ∷ []

decode_close_batch_compound-IsComplete_example :
    Ensures (λ _ _. IsComplete (1 + 1 * 2) close_reply) (decode_close_batch_compound 1 close_reply)
decode_close_batch_compound-IsComplete_example =
    decode_close_batch_compound-IsComplete 1 close_reply (omega arith) (omega arith)

abbrev session_one : List ℕ
session_one = 0 ∷ 0 ∷ 0 ∷ 0 ∷ 0 ∷ 0 ∷ 0 ∷ 0 ∷ 0 ∷ 0 ∷ 0 ∷ 0 ∷ 0 ∷ 0 ∷ 0 ∷ 1 ∷ []

decode_sequence_result-IsResult_example :
    Ensures
      (IsResult session_one 1 0 close_reply)
      (decode_sequence_result session_one 1 0 close_reply)
decode_sequence_result-IsResult_example =
    decode_sequence_result-IsResult session_one 1 0 close_reply
