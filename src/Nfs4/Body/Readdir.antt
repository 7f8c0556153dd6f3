-- ===== src/Nfs4/Body/Readdir.antt =====
-- src/nfs4/codec.rs: decoding a READDIR result. Each round of the loop takes at least four bytes, so
-- as many rounds as there are bytes are enough; running out of rounds stands as a panic, which the
-- theorem on `decode_readdir` rules out.
pub mod Moves
use nfs_crust.Prelude.{
  ℕ, zero, suc, ◌-◌, ◌/◌, min, Bool, true, false, ◌||◌, Option, none, some, List, [], ◌∷◌, ◌++◌,
  length, ◌==◌, if◌then◌else◌,
}
use nfs_crust.Prelude.Words.{u64_limit}
use nfs_crust.Result.{panic}
use nfs_crust.Result.Action.{◌>>=◌, ◌>>◌, pure}
use nfs_crust.Xdr.ByteBuf.{ByteBuf}
use nfs_crust.Xdr.Decoder.{Decoder, remaining, read_bool, read_bytes, read_u64, read_string_unless}
use nfs_crust.Nfs4.Types.{DirPage}
use nfs_crust.Nfs4.Body.{same_bytes, skip_fattr}

-- READDIR_ENTRY_BYTE_HINT and READDIR_DECODE_PREALLOC_LIMIT are 512 and 256.
unfoldable pub readdir_entries_capacity : ℕ → Option ℕ → ℕ
readdir_entries_capacity remaining none = min (remaining / 512) 256
readdir_entries_capacity remaining (some max_entries) = min (min (remaining / 512) 256) max_entries

unfoldable pub is_dot_readdir_name : List ℕ → Bool
unfolding same_bytes
is_dot_readdir_name name = same_bytes name (46 ∷ []) || same_bytes name (46 ∷ 46 ∷ [])

abbrev pub push_name : List (List ℕ) → Option (List ℕ) → List (List ℕ)
push_name entries none = entries
push_name entries (some name) = entries ++ (name ∷ [])

-- `max_entries.unwrap_or(usize::MAX)`
abbrev pub entry_limit : Option ℕ → ℕ
entry_limit none = u64_limit - 1
entry_limit (some n) = n

module _ ⦃b : ByteBuf⦄ where
  unfoldable pub readdir_loop : ℕ → ℕ → List ℕ → List (List ℕ) → ℕ → Decoder DirPage
  readdir_loop zero limit verifier entries last_cookie s = panic
  readdir_loop (suc rounds) limit verifier entries last_cookie s =
      let next = (do
        cookie ← read_u64
        name ← read_string_unless is_dot_readdir_name
        skip_fattr
        readdir_loop rounds limit verifier (push_name entries name) cookie) in
      (do
        has_entry ← read_bool
        if has_entry
            then (if length entries == limit
                then pure (record {
                  entries = entries;
                  eof = false;
                  verifier = verifier;
                  last_cookie = last_cookie;
                })
                else next)
            else (do
              eof ← read_bool
              pure (record {
                entries = entries;
                eof = eof;
                verifier = verifier;
                last_cookie = last_cookie;
              })))
        s

  unfoldable pub decode_readdir : Option ℕ → Decoder DirPage
  decode_readdir max_entries = do
    verifier ← read_bytes 8
    left ← remaining
    readdir_loop (suc left) (entry_limit max_entries) verifier [] 0
