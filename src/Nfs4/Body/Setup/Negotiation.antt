-- ===== src/Nfs4/Body/Setup/Negotiation.antt =====
-- What the negotiated configuration of src/nfs4/codec.rs guarantees to the code that sends requests.
use nfs_crust.Prelude.{max, ◌+◌, ◌≤◌, ◌<◌, ◌≡◌, arith}
use nfs_crust.Nfs4.Types.{NfsConfig}
use nfs_crust.Nfs4.Body.Setup.{ChannelAttrs, channel_payload_size, negotiated_config}

-- The sizes that a configuration is made of are positive.
pub record IsUsable (c : NfsConfig) : Type 0 where
  pub read_chunk : 0 < c.read_chunk_size
  pub granularity : 0 < c.read_granularity
  pub write_chunk : 0 < c.write_chunk_size
  pub maxcount : 0 < c.readdir_maxcount
  pub dircount : 0 < c.readdir_dircount

-- No size exceeds the one that the client was configured with, or the channel of the server's; what a
-- message carries leaves 1024 bytes of its channel for the rest (a channel of less keeps sizes of one
-- byte); the sizes nest; and the number of operations is the server's.
pub record IsWithin (c : NfsConfig) (config : NfsConfig) (attrs : ChannelAttrs) : Type 0 where
  pub request_own : c.max_request_size ≤ config.max_request_size
  pub request_server : c.max_request_size ≤ attrs.max_request_size
  pub response_own : c.max_response_size ≤ config.max_response_size
  pub response_server : c.max_response_size ≤ attrs.max_response_size
  pub write_own : c.write_chunk_size ≤ config.write_chunk_size
  pub write_room : c.write_chunk_size + 1024 ≤ max c.max_request_size 1025
  pub read_own : c.read_chunk_size ≤ config.read_chunk_size
  pub read_room : c.read_chunk_size + 1024 ≤ max c.max_response_size 1025
  pub granules_own : c.read_granularity ≤ config.read_granularity
  pub granules : c.read_granularity ≤ c.read_chunk_size
  pub page_own : c.readdir_maxcount ≤ config.readdir_maxcount
  pub page_room : c.readdir_maxcount + 1024 ≤ max c.max_response_size 1025
  pub entries_own : c.readdir_dircount ≤ config.readdir_dircount
  pub entries : c.readdir_dircount ≤ c.readdir_maxcount
  pub operations : c.max_compound_ops ≡ attrs.maxoperations

-- From a configuration whose sizes are positive, negotiation makes one whose sizes are positive. None
-- exceeds the one it was configured with; requests and responses are within the server's channel, and
-- the sizes of a read, a write and a directory page within it less 1024 bytes, or one byte; and the
-- number of operations is the server's.
pub negotiated_config-IsWithin :
    (config : NfsConfig) (attrs : ChannelAttrs)
    → IsUsable config
    → IsUsable (negotiated_config config attrs)
      × IsWithin (negotiated_config config attrs) config attrs
unfolding negotiated_config channel_payload_size
negotiated_config-IsWithin config attrs u = (omega arith, omega arith)
