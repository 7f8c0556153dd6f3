-- ===== src/Nfs4/Replies/Publish.antt =====
-- src/nfs4/codec.rs: decoding the replies of compounds that open, write, publish or close a file.
use nfs_crust.Prelude.{
  ℕ, zero, suc, ◌+◌, ◌*◌, Bool, true, false, Option, none, some, List, ◌==◌, if◌then◌else◌,
}
use nfs_crust.Prelude.Words.{saturating_add, saturating_mul}
use nfs_crust.Result.{Result}
use nfs_crust.Result.Action.{◌>>=◌, ◌>>◌, pure, lift}
use nfs_crust.Error.{Error}
use nfs_crust.Xdr.ByteBuf.{ByteBuf}
use nfs_crust.Xdr.Decoder.{Decoder, read_bytes}
use nfs_crust.Nfs4.OpCode.{OpCode}
use nfs_crust.Nfs4.Types.{FileHandle, StateId}
use nfs_crust.Nfs4.Body.{
  WriteData, requires_commit, ensure_write_verifier, decode_write_data, skip_stateid,
  decode_open_stateid,
}
use nfs_crust.Nfs4.Replies.{
  HeaderDecoder, Walk, on_dec, protocol_failure, advance_with, finish, decode_expected_op_or_exist,
  advance, sequence, result, getfh, lookups, rename_publish, link_remove_publish, with_replies,
}
use nfs_crust.Nfs4.Replies.Compounds.{
  OpenOutcome, opened, exists, CloseShape, shape_reply_count, included, require_seen, enter,
}

-- A check that reads nothing, as a decoder.
abbrev pub check : Result Error (Unit {0}) → Decoder (Unit {0})
check = lift

unfoldable pub is_file : CloseShape → Bool
is_file CloseShape.file = true
is_file _ = false

abbrev pub option_count : Option (List ℕ) → ℕ
option_count none = 0
option_count (some v) = 1

module _ ⦃b : ByteBuf⦄ where
  unfoldable pub open_stateid_or_exists : Walk (Option (OpenOutcome StateId))
  open_stateid_or_exists = do
    present ← advance_with (decode_expected_op_or_exist OpCode.open_op)
    elim present [
      | none ↦ pure none
      | some exist ↦
          if exist
          then pure (some exists)
          else (do stateid ← on_dec decode_open_stateid; pure (some (opened stateid)))
    ]

  -- The rest of an OPEN compound, whether or not the reply to OPEN was there.
  abbrev open_rest : Option StateId → Walk (OpenOutcome (StateId × FileHandle))
  open_rest found = do
    handle ← getfh
    finish
    stateid ← included found
    fh ← included handle
    pure (opened (stateid, fh))

  abbrev after_open :
      {A : Type 0}
      → (Option StateId → Walk (OpenOutcome A))
      → Option (OpenOutcome StateId)
      → Walk (OpenOutcome A)
  after_open rest none = rest none
  after_open rest (some exists) = pure exists
  after_open rest (some (opened stateid)) = rest (some stateid)

  unfoldable pub decode_open_file_compound : ℕ → HeaderDecoder (OpenOutcome (StateId × FileHandle))
  decode_open_file_compound parent_lookup_count =
      with_replies (4 + parent_lookup_count) (do
        enter parent_lookup_count
        outcome ← open_stateid_or_exists
        after_open open_rest outcome)

  -- A verifier that COMMIT returns is compared when the WRITE was not stable.
  abbrev check_commit : Option WriteData → List ℕ → Walk (Unit {0})
  check_commit none commit_verifier = protocol_failure
  check_commit (some write) commit_verifier =
      if requires_commit write.committed
      then on_dec (check (ensure_write_verifier write.verifier commit_verifier))
      else pure tt

  abbrev commit_if : Bool → Option WriteData → Walk (Unit {0})
  commit_if present write =
      if present
      then (do commit_verifier ← on_dec (read_bytes 8); check_commit write commit_verifier)
      else pure tt

  abbrev publish_as : Bool → ℕ → Walk Bool
  publish_as create_new parent_lookup_count =
      if create_new
      then link_remove_publish parent_lookup_count
      else (do restored ← advance OpCode.restore_fh; rename_publish)

  abbrev fused_rest :
      Bool → ℕ → Option StateId → Walk (OpenOutcome (StateId × FileHandle × WriteData))
  fused_rest create_new parent_lookup_count found = do
    handle ← getfh
    written ← result OpCode.write decode_write_data
    commit ← advance OpCode.commit
    commit_if commit written
    verified ← advance OpCode.verify
    published ← publish_as create_new parent_lookup_count
    finish
    require_seen published
    stateid ← included found
    fh ← included handle
    write ← included written
    pure (opened (stateid, fh, write))

  abbrev save_unless : Bool → Walk (Unit {0})
  save_unless create_new =
      if create_new then pure tt else (do saved ← advance OpCode.save_fh; pure tt)

  unfoldable pub decode_fused_put_compound :
      ℕ → Bool → HeaderDecoder (OpenOutcome (StateId × FileHandle × WriteData))
  decode_fused_put_compound parent_lookup_count create_new =
      with_replies (if create_new then 11 + 2 * parent_lookup_count else 10 + parent_lookup_count)
        (do
          enter parent_lookup_count
          save_unless create_new
          outcome ← open_stateid_or_exists
          after_open (fused_rest create_new parent_lookup_count) outcome)

  abbrev commit_expected : Option (List ℕ) → Walk (Unit {0})
  commit_expected none = pure tt
  commit_expected (some expected) = do
    present ← advance OpCode.commit
    if present
        then (do
          actual ← on_dec (read_bytes 8)
          on_dec (check (ensure_write_verifier expected actual)))
        else pure tt

  abbrev verify_unless : Bool → Walk (Unit {0})
  verify_unless file = if file then pure tt else (do verified ← advance OpCode.verify; pure tt)

  abbrev pub skip_stateid_if : Bool → Walk (Unit {0})
  skip_stateid_if present = if present then on_dec skip_stateid else pure tt

  abbrev close_publish : CloseShape → Bool → Walk Bool
  close_publish CloseShape.file saw_close = pure saw_close
  close_publish (CloseShape.rename n) saw_close = do
    put ← advance OpCode.put_fh
    lookups n
    saved ← advance OpCode.save_fh
    rename_publish
  close_publish (CloseShape.link_remove n) saw_close = link_remove_publish n

  unfoldable pub decode_close_compound : CloseShape → Option (List ℕ) → HeaderDecoder (Unit {0})
  decode_close_compound shape commit_verifier =
      with_replies (shape_reply_count shape + option_count commit_verifier) (do
        sequence
        put ← advance OpCode.put_fh
        commit_expected commit_verifier
        verify_unless (is_file shape)
        saw_close ← advance OpCode.close
        skip_stateid_if saw_close
        published ← close_publish shape saw_close
        finish
        require_seen saw_close
        require_seen published)

  -- The number of CLOSE results in `close_count` pairs of replies.
  unfoldable pub count_closes : ℕ → Walk ℕ
  count_closes zero = pure 0
  count_closes (suc close_count) =
      let rest = count_closes close_count in
      (do
        put ← advance OpCode.put_fh
        present ← advance OpCode.close
        skip_stateid_if present
        n ← rest
        pure (if present then suc n else n))

  unfoldable pub decode_close_batch_compound : ℕ → HeaderDecoder (Unit {0})
  decode_close_batch_compound close_count =
      with_replies (saturating_add 1 (saturating_mul close_count 2)) (do
        sequence
        decoded_closes ← count_closes close_count
        finish
        require_seen (decoded_closes == close_count))
