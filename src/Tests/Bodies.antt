-- ===== src/Tests/Bodies.antt =====
-- Result bodies of src/nfs4/codec.rs on concrete bytes.
use nfs_crust.Prelude.{ℕ, ◌≡◌, ◌≢◌, some, List, [], ◌∷◌, arith}
use nfs_crust.Result.{panic}
use nfs_crust.Result.Action.{Ensures}
use nfs_crust.Xdr.ListBuf.{list_buf}
use nfs_crust.Xdr.Decoder.{read_bytes}
use nfs_crust.Nfs4.Replies.Sequence.{decode_sequence_result}
use nfs_crust.Nfs4.Types.{NfsConfig, new_config}
use nfs_crust.Nfs4.Body.{
  skip_sequence_data, decode_file_handle, decode_read_data, decode_write_data, skip_stateid,
  skip_change_info, decode_open_stateid,
}
use nfs_crust.Nfs4.Body.Total.{body-ne-panic}
use nfs_crust.Nfs4.Body.Attrs.{decode_fattr, decode_fattr_single_bitmap_word, decode_fattr_values}
use nfs_crust.Nfs4.Body.Attrs.Fast.{decode_fattr_single_bitmap_word_lem}
use nfs_crust.Nfs4.Body.Readdir.{entry_limit, decode_readdir}
use nfs_crust.Nfs4.Body.Readdir.Moves.{IsPage, decode_readdir-IsPage}
use nfs_crust.Nfs4.Body.Setup.{
  ChannelAttrs, negotiated_config, decode_exchange_id, decode_create_session,
}
use nfs_crust.Nfs4.Body.Setup.Negotiation.{IsUsable, IsWithin, negotiated_config-IsWithin}
use nfs_crust.Nfs4.Body.Setup.Moves.{IsSession, IsReplyTo, decode_create_session-IsSession}

-- The attribute values of a file of 256 bytes.
abbrev size_256 : List ℕ
size_256 = 0 ∷ 0 ∷ 0 ∷ 8 ∷ 0 ∷ 0 ∷ 0 ∷ 0 ∷ 0 ∷ 0 ∷ 1 ∷ 0 ∷ []

decode_fattr_single_bitmap_word_lem_example :
    decode_fattr_single_bitmap_word 0x10 size_256 ≡ decode_fattr_values (0x10 ∷ []) size_256
decode_fattr_single_bitmap_word_lem_example = decode_fattr_single_bitmap_word_lem 0x10 size_256

-- A verifier, the entry `a` with no attributes, and the end of the directory.
abbrev one_entry : List ℕ
one_entry =
    0 ∷ 0 ∷ 0 ∷ 0 ∷ 0 ∷ 0 ∷ 0 ∷ 7 ∷ 0 ∷ 0 ∷ 0 ∷ 1 ∷ 0 ∷ 0 ∷ 0 ∷ 0 ∷ 0 ∷ 0 ∷ 0 ∷ 3 ∷ 0 ∷ 0 ∷ 0 ∷ 1
    ∷ 97 ∷ 0 ∷ 0 ∷ 0 ∷ 0 ∷ 0 ∷ 0 ∷ 0 ∷ 0 ∷ 0 ∷ 0 ∷ 0 ∷ 0 ∷ 0 ∷ 0 ∷ 0 ∷ 0 ∷ 0 ∷ 0 ∷ 1 ∷ []

decode_readdir-IsPage_example :
    Ensures (IsPage (entry_limit (some 2)) one_entry) (decode_readdir (some 2) one_entry)
decode_readdir-IsPage_example = decode_readdir-IsPage (some 2) one_entry

body-ne-panic_example :
    (skip_sequence_data size_256 ≢ panic)
    × (decode_file_handle size_256 ≢ panic)
    × (decode_read_data size_256 ≢ panic)
    × (decode_write_data size_256 ≢ panic)
    × (read_bytes 8 size_256 ≢ panic)
    × (skip_stateid size_256 ≢ panic)
    × (skip_change_info size_256 ≢ panic)
    × (decode_open_stateid size_256 ≢ panic)
    × (decode_fattr size_256 ≢ panic)
    × (decode_readdir (some 2) size_256 ≢ panic)
    × (decode_exchange_id size_256 ≢ panic)
    × (decode_create_session 1 100 size_256 ≢ panic)
    × (decode_sequence_result [] 1 0 size_256 ≢ panic)
body-ne-panic_example = body-ne-panic (some 2) [] 1 0 100 size_256

-- A channel of 4096 bytes each way, 16 operations and 8 requests.
abbrev channel : List ℕ → List ℕ
channel rest =
    0 ∷ 0 ∷ 0 ∷ 0 ∷ 0 ∷ 0 ∷ 16 ∷ 0 ∷ 0 ∷ 0 ∷ 16 ∷ 0 ∷ 0 ∷ 0 ∷ 0 ∷ 0 ∷ 0 ∷ 0 ∷ 0 ∷ 16 ∷ 0 ∷ 0 ∷ 0 ∷ 8
    ∷ 0 ∷ 0 ∷ 0 ∷ 0 ∷ rest

abbrev new_session : List ℕ
new_session =
    0
    ∷ 0
    ∷ 0
    ∷ 0
    ∷ 0
    ∷ 0
    ∷ 0
    ∷ 0
    ∷ 0
    ∷ 0
    ∷ 0
    ∷ 0
    ∷ 0
    ∷ 0
    ∷ 0
    ∷ 9
    ∷ 0
    ∷ 0
    ∷ 0
    ∷ 1
    ∷ 0
    ∷ 0
    ∷ 0
    ∷ 0
    ∷ channel (channel [])

decode_create_session-IsSession_example :
    Ensures
      (λ r s'. IsSession 100 r × IsReplyTo 1 new_session r)
      (decode_create_session 1 100 new_session)
decode_create_session-IsSession_example = decode_create_session-IsSession 1 100 new_session

-- The default configuration for the export `/e`, and a server with a channel of 64 KiB.
abbrev config : NfsConfig
config = new_config (47 ∷ 101 ∷ [])

abbrev small_channel : ChannelAttrs
small_channel = record {
  max_request_size = 65536;
  max_response_size = 65536;
  maxoperations = 16;
  maxrequests = 8;
}

config-IsUsable : IsUsable config
config-IsUsable = omega arith

negotiated_config-IsWithin_example :
    IsUsable (negotiated_config config small_channel)
    × IsWithin (negotiated_config config small_channel) config small_channel
negotiated_config-IsWithin_example = negotiated_config-IsWithin config small_channel config-IsUsable
