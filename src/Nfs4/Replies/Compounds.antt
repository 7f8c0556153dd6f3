-- ===== src/Nfs4/Replies/Compounds.antt =====
-- src/nfs4/codec.rs: decoding the reply of each compound.
use nfs_crust.Prelude.{ℕ, ◌+◌, Bool, true, false, ◌||◌, Option, none, some, List, if◌then◌else◌}
use nfs_crust.Result.{Result, ok, err, ok_or}
use nfs_crust.Result.Action.{◌>>=◌, ◌>>◌, pure, lift}
use nfs_crust.Error.{Error}
use nfs_crust.Xdr.ByteBuf.{ByteBuf}
use nfs_crust.Xdr.Decoder.{read_bytes}
use nfs_crust.Nfs4.OpCode.{OpCode}
use nfs_crust.Nfs4.Types.{FileHandle, FileAttrs, AttrRequest, DirPage}
use nfs_crust.Nfs4.Body.{ReadData, WriteData, decode_read_data, decode_write_data}
use nfs_crust.Nfs4.Body.Attrs.{decode_fattr, no_attrs}
use nfs_crust.Nfs4.Body.Readdir.{decode_readdir}
use nfs_crust.Nfs4.Replies.{
  CompoundDecodeError, from_error, HeaderDecoder, Walk, protocol_failure, finish, advance, sequence,
  result, getfh, lookups, rename_publish, link_remove_publish, with_replies,
}

pub data OpenOutcome (A : Type 0) : Type 0 where
  opened : A → OpenOutcome A
  exists : OpenOutcome A

pub data CloseShape : Type 0 where
  file : CloseShape
  -- parent_lookup_count
  rename link_remove : ℕ → CloseShape

unfoldable pub shape_reply_count : CloseShape → ℕ
shape_reply_count CloseShape.file = 3
shape_reply_count (CloseShape.rename n) = 7 + n
shape_reply_count (CloseShape.link_remove n) = 8 + n

-- `ok_or_else` with a protocol error
abbrev pub included : {A : Type 0} → Option A → Walk A
included o = lift (ok_or o (from_error Error.protocol))

-- A protocol error unless the condition holds.
abbrev pub require_seen : Bool → Walk (Unit {0})
require_seen seen = if seen then pure tt else protocol_failure

abbrev attrs_or_default : Option FileAttrs → FileAttrs
attrs_or_default none = no_attrs
attrs_or_default (some attrs) = attrs

abbrev is_missing : {A : Type 0} → Option A → Bool
is_missing none = true
is_missing (some a) = false

unfoldable pub validate_file_attrs : AttrRequest → FileAttrs → Result CompoundDecodeError (Unit {0})
validate_file_attrs AttrRequest.size attrs =
    if is_missing attrs.size then err (from_error Error.protocol) else ok tt
validate_file_attrs AttrRequest.type_and_size attrs =
    if is_missing attrs.file_type || is_missing attrs.size
    then err (from_error Error.protocol)
    else ok tt

abbrev pub size_of : Option FileAttrs → Option ℕ
size_of none = none
size_of (some attrs) = attrs.size

module _ ⦃b : ByteBuf⦄ where
  -- The start of most compounds: SEQUENCE, PUTFH and the lookups of the parent.
  abbrev pub enter : ℕ → Walk (Unit {0})
  enter lookup_count = do sequence; put ← advance OpCode.put_fh; lookups lookup_count

  unfoldable pub decode_no_result_compound : OpCode → HeaderDecoder (Unit {0})
  decode_no_result_compound expected =
      with_replies 2
        (do sequence; saw_expected ← advance expected; finish; require_seen saw_expected)

  unfoldable pub decode_read_compound : HeaderDecoder ReadData
  decode_read_compound = with_replies 3 (do
    sequence
    put ← advance OpCode.put_fh
    read ← result OpCode.read decode_read_data
    finish
    included read)

  unfoldable pub decode_read_path_compound : ℕ → HeaderDecoder ReadData
  decode_read_path_compound lookup_count =
      with_replies (3 + lookup_count)
        (do enter lookup_count; read ← result OpCode.read decode_read_data; finish; included read)

  unfoldable pub decode_read_path_handle_compound : ℕ → HeaderDecoder (FileHandle × ReadData)
  decode_read_path_handle_compound lookup_count = with_replies (4 + lookup_count) (do
    enter lookup_count
    handle ← getfh
    read ← result OpCode.read decode_read_data
    finish
    fh ← included handle
    bytes ← included read
    pure (fh, bytes))

  unfoldable pub decode_read_path_size_compound : ℕ → HeaderDecoder (FileHandle × ℕ × ReadData)
  decode_read_path_size_compound lookup_count = with_replies (5 + lookup_count) (do
    enter lookup_count
    handle ← getfh
    attrs ← result OpCode.get_attr decode_fattr
    read ← result OpCode.read decode_read_data
    finish
    fh ← included handle
    size ← included (size_of attrs)
    bytes ← included read
    pure (fh, size, bytes))

  unfoldable pub decode_getfh_compound : OpCode → ℕ → HeaderDecoder FileHandle
  decode_getfh_compound start_op lookup_count = with_replies (3 + lookup_count) (do
    sequence
    started ← advance start_op
    lookups lookup_count
    handle ← getfh
    finish
    included handle)

  unfoldable pub decode_getfh_attrs_compound :
      ℕ → AttrRequest → HeaderDecoder (FileHandle × FileAttrs)
  decode_getfh_attrs_compound lookup_count attr_request = with_replies (4 + lookup_count) (do
    enter lookup_count
    handle ← getfh
    found ← result OpCode.get_attr decode_fattr
    finish
    fh ← included handle
    lift (validate_file_attrs attr_request (attrs_or_default found))
    pure (fh, attrs_or_default found))

  unfoldable pub decode_rename_publish_compound : ℕ → HeaderDecoder (Unit {0})
  decode_rename_publish_compound parent_lookup_count = with_replies (4 + parent_lookup_count) (do
    enter parent_lookup_count
    saved ← advance OpCode.save_fh
    published ← rename_publish
    finish
    require_seen published)

  unfoldable pub decode_link_remove_publish_compound : ℕ → HeaderDecoder (Unit {0})
  decode_link_remove_publish_compound parent_lookup_count =
      with_replies (6 + parent_lookup_count) (do
        sequence
        put ← advance OpCode.put_fh
        published ← link_remove_publish parent_lookup_count
        finish
        require_seen published)

  unfoldable pub decode_write_compound : HeaderDecoder WriteData
  decode_write_compound = with_replies 3 (do
    sequence
    put ← advance OpCode.put_fh
    write ← result OpCode.write decode_write_data
    finish
    included write)

  unfoldable pub decode_write_commit_compound : HeaderDecoder (WriteData × List ℕ)
  decode_write_commit_compound = with_replies 4 (do
    sequence
    put ← advance OpCode.put_fh
    written ← result OpCode.write decode_write_data
    committed ← result OpCode.commit (read_bytes 8)
    finish
    write ← included written
    commit ← included committed
    pure (write, commit))

  unfoldable pub decode_readdir_compound : Option ℕ → HeaderDecoder DirPage
  decode_readdir_compound max_entries = with_replies 3 (do
    sequence
    put ← advance OpCode.put_fh
    page ← result OpCode.read_dir (decode_readdir max_entries)
    finish
    included page)

  unfoldable pub decode_readdir_path_compound : Option ℕ → ℕ → HeaderDecoder (FileHandle × DirPage)
  decode_readdir_path_compound max_entries parent_lookup_count =
      with_replies (4 + parent_lookup_count) (do
        enter parent_lookup_count
        handle ← getfh
        found ← result OpCode.read_dir (decode_readdir max_entries)
        finish
        fh ← included handle
        page ← included found
        pure (fh, page))

  unfoldable pub decode_readdir_path_without_handle_compound : Option ℕ → ℕ → HeaderDecoder DirPage
  decode_readdir_path_without_handle_compound max_entries parent_lookup_count =
      with_replies (3 + parent_lookup_count) (do
        enter parent_lookup_count
        page ← result OpCode.read_dir (decode_readdir max_entries)
        finish
        included page)
