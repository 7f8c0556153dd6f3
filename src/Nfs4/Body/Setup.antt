-- ===== src/Nfs4/Body/Setup.antt =====
-- src/nfs4/codec.rs: the results of EXCHANGE_ID and CREATE_SESSION, and the configuration that the
-- client goes on with.
pub mod Negotiation
pub mod Moves
use nfs_crust.Prelude.{
  ℕ, zero, suc, ◌+◌, ◌-◌, ◌*◌, ◌/◌, min, max, Option, none, some, List, ltb, ◌==◌, if◌then◌else◌,
}
use nfs_crust.Prelude.Words.{u32_limit, saturating_mul}
use nfs_crust.Result.{Result, ok, err}
use nfs_crust.Result.Action.{◌>>=◌, ◌>>◌, pure, fail, lift}
use nfs_crust.Error.{Error}
use nfs_crust.Xdr.ByteBuf.{ByteBuf}
use nfs_crust.Xdr.Decoder.{
  Decoder, remaining, read_u32, read_u64, read_bytes, skip_bytes, skip_bytes_after_require,
  skip_opaque,
}
use nfs_crust.Nfs4.Types.{NfsConfig}

pub record ExchangeIdResult : Type 0 where
  pub clientid : ℕ
  pub sequenceid : ℕ

pub record ChannelAttrs : Type 0 where
  pub max_request_size : ℕ
  pub max_response_size : ℕ
  pub maxoperations : ℕ
  pub maxrequests : ℕ

pub record CreateSessionResult : Type 0 where
  pub sessionid : List ℕ
  pub fore_attrs : ChannelAttrs

unfoldable pub nonzero_channel_limit : ℕ → Result Error ℕ
nonzero_channel_limit value = if value == 0 then err Error.protocol else ok value

-- 24 + 12 + 8 + SEQUENCE_RESULT_LEN
abbrev pub min_sequence_compound_response_size : ℕ
min_sequence_compound_response_size = 24 + 12 + 8 + (16 + 5 * 4)

unfoldable pub validate_fore_channel_minimums : ChannelAttrs → ℕ → Result Error (Unit {0})
validate_fore_channel_minimums attrs minimum_request_size =
    if ltb attrs.maxoperations 2
    then err Error.protocol
    else if ltb attrs.max_request_size minimum_request_size
    then err Error.protocol
    else if ltb attrs.max_response_size min_sequence_compound_response_size
    then err Error.protocol
    else ok tt

-- CHANNEL_PAYLOAD_RESERVE is 1024.
unfoldable pub channel_payload_size : ℕ → ℕ
channel_payload_size channel_size = max (channel_size - 1024) 1

unfoldable pub commit_count : ℕ → ℕ
commit_count bytes = if ltb bytes u32_limit then bytes else 0

unfoldable pub negotiated_config : NfsConfig → ChannelAttrs → NfsConfig
negotiated_config config fore_attrs =
    let max_request_size = min config.max_request_size fore_attrs.max_request_size in
    let max_response_size = min config.max_response_size fore_attrs.max_response_size in
    let max_request_payload = channel_payload_size max_request_size in
    let max_response_payload = channel_payload_size max_response_size in
    let read_chunk_size = min config.read_chunk_size max_response_payload in
    let readdir_maxcount = min config.readdir_maxcount max_response_payload in
    record config {
      max_request_size = max_request_size;
      max_response_size = max_response_size;
      write_chunk_size = min config.write_chunk_size max_request_payload;
      read_chunk_size = read_chunk_size;
      read_granularity = min config.read_granularity read_chunk_size;
      readdir_maxcount = readdir_maxcount;
      readdir_dircount = max (min config.readdir_dircount readdir_maxcount) 1;
      max_compound_ops = fore_attrs.maxoperations;
    }

-- READDIR_ENTRY_BYTE_HINT and READDIR_MIN_HINT_BYTES are 512 and 4096.
abbrev hinted_maxcount : NfsConfig → Option ℕ → ℕ
hinted_maxcount config none = config.readdir_maxcount
hinted_maxcount config (some entries) = min (max (saturating_mul entries 512) 4096) (u32_limit - 1)

-- The pair is (dircount, maxcount).
unfoldable pub bounded_readdir_counts : NfsConfig → Option ℕ → ℕ × ℕ
bounded_readdir_counts config max_entries_hint =
    let maxcount = max (min config.readdir_maxcount (hinted_maxcount config max_entries_hint)) 1 in
    (max (min config.readdir_dircount maxcount) 1, maxcount)

module _ ⦃b : ByteBuf⦄ where
  -- SP4_NONE, SP4_MACH_CRED and SP4_SSV are 0, 1 and 2.
  unfoldable pub decode_state_protect : Decoder (Unit {0})
  decode_state_protect = do
    mode ← read_u32
    if mode == 0
        then pure tt
        else if mode == 1
        then fail Error.unsupported
        else if mode == 2
        then fail Error.unsupported
        else fail Error.protocol

  unfoldable pub skip_impl_ids : ℕ → Decoder (Unit {0})
  skip_impl_ids zero = pure tt
  skip_impl_ids (suc len) = do skip_opaque; skip_opaque; skip_bytes (8 + 4); skip_impl_ids len

  -- IMPLEMENTATION_ID_MIN_LEN is 4 + 4 + (8 + 4).
  unfoldable pub skip_impl_id_array : Decoder (Unit {0})
  skip_impl_id_array = do
    len ← read_u32
    left ← remaining
    if ltb (left / (4 + 4 + (8 + 4))) len then fail Error.xdr else skip_impl_ids len

  unfoldable pub decode_exchange_id : Decoder ExchangeIdResult
  decode_exchange_id = do
    clientid ← read_u64
    sequenceid ← read_u32
    flags ← read_u32
    decode_state_protect
    server_minor_id ← read_u64
    skip_opaque
    skip_opaque
    skip_impl_id_array
    pure (record { clientid = clientid; sequenceid = sequenceid })

  unfoldable pub decode_channel_attrs : Decoder ChannelAttrs
  decode_channel_attrs = do
    headerpadsize ← read_u32
    request ← read_u32
    max_request_size ← lift (nonzero_channel_limit request)
    response ← read_u32
    max_response_size ← lift (nonzero_channel_limit response)
    maxresponsesize_cached ← read_u32
    operations ← read_u32
    maxoperations ← lift (nonzero_channel_limit operations)
    requests ← read_u32
    maxrequests ← lift (nonzero_channel_limit requests)
    rdma_ird_len ← read_u32
    left ← remaining
    if ltb (left / 4) rdma_ird_len
        then fail Error.xdr
        else skip_bytes_after_require (rdma_ird_len * 4)
    pure (record {
      max_request_size = max_request_size;
      max_response_size = max_response_size;
      maxoperations = maxoperations;
      maxrequests = maxrequests;
    })

  unfoldable pub decode_create_session : ℕ → ℕ → Decoder CreateSessionResult
  decode_create_session expected_sequenceid minimum_request_size = do
    sessionid ← read_bytes 16
    sequenceid ← read_u32
    if sequenceid == expected_sequenceid then pure tt else fail Error.protocol
    flags ← read_u32
    fore_attrs ← decode_channel_attrs
    lift (validate_fore_channel_minimums fore_attrs minimum_request_size)
    back_attrs ← decode_channel_attrs
    pure (record { sessionid = sessionid; fore_attrs = fore_attrs })
