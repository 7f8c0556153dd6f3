-- ===== src/Nfs4/Types.antt =====
-- src/nfs4.rs and src/nfs4/ops.rs: the values that operations carry. Byte arrays and texts are lists
-- of bytes; `Bitmap` has one field, its words, and stands as their list.
use nfs_crust.Prelude.{ℕ, Bool, true, Option, some, List, [], ◌∷◌, replicate, ◌*◌, ◌+◌, ◌-◌}
use nfs_crust.Prelude.Words.{u32_limit}

abbrev pub FileHandle : Type 0
FileHandle = List ℕ

pub record StateId : Type 0 where
  pub seqid : ℕ
  pub other : List ℕ

-- `StateId::anonymous()` and `StateId::current()`
abbrev pub anonymous_stateid : StateId
anonymous_stateid = record { seqid = 0; other = replicate 12 0 }

abbrev pub current_stateid : StateId
current_stateid = record { seqid = 1; other = replicate 12 0 }

pub record OpenedFile : Type 0 where
  pub fh : FileHandle
  pub stateid : StateId
  pub close_seqid : ℕ

abbrev pub Bitmap : Type 0
Bitmap = List ℕ

-- `Bitmap::empty()`, `Bitmap::size_attr()`, `Bitmap::type_and_size_attrs()`
abbrev pub empty_bitmap : Bitmap
empty_bitmap = []

abbrev pub size_attr : Bitmap
size_attr = 0x10 ∷ []

abbrev pub type_and_size_attrs : Bitmap
type_and_size_attrs = 0x12 ∷ []

pub data AttrRequest : Type 0 where
  size type_and_size : AttrRequest

unfoldable pub bitmap : AttrRequest → Bitmap
bitmap AttrRequest.size = size_attr
bitmap AttrRequest.type_and_size = type_and_size_attrs

pub data FileType : Type 0 where
  regular dir : FileType
  other : ℕ → FileType

pub record FileAttrs : Type 0 where
  pub file_type : Option FileType
  pub size : Option ℕ

pub record DirPage : Type 0 where
  pub entries : List (List ℕ)
  pub eof : Bool
  pub verifier : List ℕ
  pub last_cookie : ℕ

pub record NfsConfig : Type 0 where
  pub export : List ℕ
  pub read_chunk_size : ℕ
  pub read_granularity : ℕ
  pub write_chunk_size : ℕ
  pub pipeline_write_chunks : Bool
  pub readdir_dircount : ℕ
  pub readdir_maxcount : ℕ
  pub file_mode : ℕ
  pub dir_mode : ℕ
  pub session_slots : ℕ
  pub max_request_size : ℕ
  pub max_response_size : ℕ
  pub max_compound_ops : ℕ
  pub operation_timeout : Option ℕ
  pub transient_retries : ℕ
  pub transient_retry_delay : ℕ

-- `NfsConfig::new`; durations are in milliseconds.
abbrev pub new_config : List ℕ → NfsConfig
new_config export = record {
  export = export;
  read_chunk_size = 1024 * 1024;
  read_granularity = 128 * 1024;
  write_chunk_size = 1024 * 1024;
  pipeline_write_chunks = true;
  readdir_dircount = 64 * 1024;
  readdir_maxcount = 1024 * 1024;
  file_mode = 0o644;
  dir_mode = 0o755;
  session_slots = 64;
  max_request_size = 16 * 1024 * 1024;
  max_response_size = 1024 * 1024 + 1024;
  max_compound_ops = u32_limit - 1;
  operation_timeout = some 30000;
  transient_retries = 5;
  transient_retry_delay = 1000;
}
