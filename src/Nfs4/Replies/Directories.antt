-- ===== src/Nfs4/Replies/Directories.antt =====
-- src/nfs4/codec.rs: decoding the replies of compounds that create a directory or remove a name, and
-- of the compounds that set up a client and its session.
use nfs_crust.Prelude.{ℕ, zero, suc, ◌+◌, Bool, true, false, ◌&&◌, none, some, ◌==◌, if◌then◌else◌}
use nfs_crust.Result.{map_err}
use nfs_crust.Result.Action.{◌>>=◌, ◌>>◌, pure, fail, lift}
use nfs_crust.Xdr.ByteBuf.{ByteBuf}
use nfs_crust.Xdr.Decoder.{Decoder}
use nfs_crust.Nfs4.OpCode.{OpCode, to_u32}
use nfs_crust.Nfs4.Status.{is_ok, noent}
use nfs_crust.Nfs4.Types.{FileHandle}
use nfs_crust.Nfs4.Body.{skip_change_info, skip_sequence_data, skip_bitmap}
use nfs_crust.Nfs4.Body.Setup.{
  ExchangeIdResult, CreateSessionResult, decode_exchange_id, decode_create_session,
}
use nfs_crust.Nfs4.Replies.{
  nfs, HeaderDecoder, Walk, on_dec, protocol_failure, validate_expected_reply_op, read_header,
  advance_with, finish, decode_expected_op_or_exist, result, getfh, with_replies,
}
use nfs_crust.Nfs4.Replies.Compounds.{included, enter}

pub data CreateDirOutcome : Type 0 where
  created exists : CreateDirOutcome

pub data CreateDirHandleOutcome : Type 0 where
  created_handle : FileHandle → CreateDirHandleOutcome
  exists : CreateDirHandleOutcome

pub data RemoveOutcome : Type 0 where
  removed missing : RemoveOutcome

-- PUTFH, LOOKUP and REMOVE report a name that is not there.
unfoldable pub may_be_missing : OpCode → Bool
may_be_missing OpCode.put_fh = true
may_be_missing OpCode.lookup = true
may_be_missing OpCode.remove = true
may_be_missing _ = false

module _ ⦃b : ByteBuf⦄ where
  abbrev skip_created : Walk (Unit {0})
  skip_created = do on_dec skip_change_info; on_dec skip_bitmap

  abbrev not_created : Walk CreateDirOutcome
  not_created = do finish; protocol_failure

  unfoldable pub decode_create_dir_compound : ℕ → HeaderDecoder CreateDirOutcome
  decode_create_dir_compound parent_lookup_count = with_replies (3 + parent_lookup_count) (do
    enter parent_lookup_count
    present ← advance_with (decode_expected_op_or_exist OpCode.create)
    elim present [
      | none ↦ not_created
      | some exist ↦
          if exist
          then pure CreateDirOutcome.exists
          else (do skip_created; finish; pure CreateDirOutcome.created)
    ])

  abbrev created_rest : Walk CreateDirHandleOutcome
  created_rest = do found ← getfh; finish; handle ← included found; pure (created_handle handle)

  unfoldable pub decode_create_dir_handle_compound : ℕ → HeaderDecoder CreateDirHandleOutcome
  decode_create_dir_handle_compound parent_lookup_count = with_replies (4 + parent_lookup_count) (do
    enter parent_lookup_count
    present ← advance_with (decode_expected_op_or_exist OpCode.create)
    elim present [
      | none ↦ created_rest
      | some exist ↦
          if exist then pure CreateDirHandleOutcome.exists else (do skip_created; created_rest)
    ])

  unfoldable pub decode_remove_expected_op : OpCode → HeaderDecoder Bool
  decode_remove_expected_op expected = do
    (op_raw, status) ← read_header
    op ← lift (validate_expected_reply_op op_raw status expected)
    if is_ok status
        then pure false
        else if to_u32 op == to_u32 expected && (status == noent && may_be_missing expected)
        then pure true
        else fail (nfs status op)

  -- The reply to `op`: a missing name ends the walk, a reply that is there goes on with the first
  -- walk, and none with the second.
  abbrev expect : OpCode → Walk RemoveOutcome → Walk RemoveOutcome → Walk RemoveOutcome
  expect op there absent = do
    present ← advance_with (decode_remove_expected_op op)
    elim present [ none ↦ absent | some is_missing ↦ if is_missing then pure missing else there ]

  abbrev remove_last : Walk RemoveOutcome
  remove_last =
      expect OpCode.remove (do on_dec skip_change_info; finish; pure removed)
        (do finish; protocol_failure)

  unfoldable pub remove_lookups : ℕ → Walk RemoveOutcome
  remove_lookups zero = remove_last
  remove_lookups (suc n) = let rest = remove_lookups n in expect OpCode.lookup rest remove_last

  abbrev remove_from : ℕ → Walk RemoveOutcome
  remove_from parent_lookup_count =
      expect OpCode.put_fh (remove_lookups parent_lookup_count) (remove_lookups parent_lookup_count)

  unfoldable pub decode_remove_compound : ℕ → HeaderDecoder RemoveOutcome
  decode_remove_compound parent_lookup_count = with_replies (3 + parent_lookup_count) (
      expect OpCode.sequence (do on_dec skip_sequence_data; remove_from parent_lookup_count)
        (remove_from parent_lookup_count))

  -- Setup compounds report the error alone, `into_error`.
  unfoldable pub decode_setup_compound : {A : Type 0} → OpCode → Decoder A → Decoder A
  decode_setup_compound expected decode s =
      map_err (λ e. e.error)
        (with_replies 1 (do found ← result expected decode; finish; included found) s)

  unfoldable pub decode_exchange_id_compound : Decoder ExchangeIdResult
  decode_exchange_id_compound = decode_setup_compound OpCode.exchange_id decode_exchange_id

  unfoldable pub decode_create_session_compound : ℕ → ℕ → Decoder CreateSessionResult
  decode_create_session_compound expected_sequenceid minimum_request_size =
      decode_setup_compound OpCode.create_session
        (decode_create_session expected_sequenceid minimum_request_size)
