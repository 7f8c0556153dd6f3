-- ===== src/Error.antt =====
-- src/error.rs: the variants of `Error`. Texts for people are left out of the variants, since no
-- code reads them; what code reads (status codes, operation names, sizes, paths) is kept.
-- A path or a name is the list of the bytes of its UTF-8 form.
pub mod Classify
use nfs_crust.Prelude.{ℕ, String, Option, List}

pub data Error : Type 0 where
  io rpc connection_lost xdr protocol invalid_path invalid_config unsupported : Error
  request_not_sent : Error → Error
  nfs : ℕ → String → Error
  already_exists : List ℕ → Error
  outcome_unknown : String → List ℕ → Error
  file_size_mismatch : ℕ → Option ℕ → Error
  timeout : ℕ → Error
  buffered_read_too_large : Option ℕ → ℕ → Error
