-- ===== src/Xdr/ByteBuf.antt =====
-- The crate `bytes`, as far as src/xdr.rs calls it: `BufMut` for writing, `Buf` for reading.
-- `none` is a panic. The laws are what the crate's documentation says: words are big-endian,
-- `advance` and `copy_to_slice` (or `copy_to_bytes`) move forward by a length that is there.
use nfs_crust.Prelude.{ℕ, ◌≤◌, ◌<◌, ◌≡◌, Option, some, List, ◌++◌, length, take, drop}
use nfs_crust.Prelude.Words.{be, u32_limit, u64_limit}

pub record ByteBuf : Type 0 where
  pub put_u32 : List ℕ → ℕ → List ℕ
  pub put_u64 : List ℕ → ℕ → List ℕ
  pub extend_from_slice : List ℕ → List ℕ → List ℕ
  pub get_u32 : List ℕ → Option (ℕ × List ℕ)
  pub get_u64 : List ℕ → Option (ℕ × List ℕ)
  pub advance : ℕ → List ℕ → Option (List ℕ)
  pub copy_to : ℕ → List ℕ → Option (List ℕ × List ℕ)
  pub put_u32_appends : (buf : List ℕ) (v : ℕ) → v < u32_limit → put_u32 buf v ≡ buf ++ be 4 v
  pub put_u64_appends : (buf : List ℕ) (v : ℕ) → v < u64_limit → put_u64 buf v ≡ buf ++ be 8 v
  pub extend_appends : (buf v : List ℕ) → extend_from_slice buf v ≡ buf ++ v
  pub get_u32_reads : (v : ℕ) (s : List ℕ) → v < u32_limit → get_u32 (be 4 v ++ s) ≡ some (v, s)
  pub get_u64_reads : (v : ℕ) (s : List ℕ) → v < u64_limit → get_u64 (be 8 v ++ s) ≡ some (v, s)
  pub get_u32_takes :
      (s : List ℕ) → 4 ≤ length s → (v : ℕ) × (v < u32_limit) × (get_u32 s ≡ some (v, drop 4 s))
  pub get_u64_takes :
      (s : List ℕ) → 8 ≤ length s → (v : ℕ) × (v < u64_limit) × (get_u64 s ≡ some (v, drop 8 s))
  pub advance_drops : (n : ℕ) (s : List ℕ) → n ≤ length s → advance n s ≡ some (drop n s)
  pub copy_takes : (n : ℕ) (s : List ℕ) → n ≤ length s → copy_to n s ≡ some (take n s, drop n s)
