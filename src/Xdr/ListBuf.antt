-- ===== src/Xdr/ListBuf.antt =====
-- The crate `bytes` over plain lists: its documented behaviour can be met.
use nfs_crust.Prelude.{
  ℕ, ◌%◌, ◌≤◌, ◌<◌, ◌≡◌, refl, ap, Option, none, some, List, [], ◌∷◌, ◌++◌, arith, length, take,
  drop, leb, if◌then◌else◌,
}
use nfs_crust.Prelude.Words.{be, of_be, of_be-be_u32, of_be-be_u64, u32_limit, u64_limit}
use nfs_crust.Xdr.ByteBuf.{ByteBuf}

abbrev get_u32 : List ℕ → Option (ℕ × List ℕ)
get_u32 (a ∷ b ∷ c ∷ d ∷ rest) = some (of_be (a ∷ b ∷ c ∷ d ∷ []) % u32_limit, rest)
get_u32 _ = none

abbrev get_u64 : List ℕ → Option (ℕ × List ℕ)
get_u64 (a ∷ b ∷ c ∷ d ∷ e ∷ f ∷ g ∷ h ∷ rest) =
    some (of_be (a ∷ b ∷ c ∷ d ∷ e ∷ f ∷ g ∷ h ∷ []) % u64_limit, rest)
get_u64 _ = none

abbrev advance : ℕ → List ℕ → Option (List ℕ)
advance n s = if leb n (length s) then some (drop n s) else none

abbrev copy_to : ℕ → List ℕ → Option (List ℕ × List ℕ)
copy_to n s = if leb n (length s) then some (take n s, drop n s) else none

pub get_u32_reads : (v : ℕ) (s : List ℕ) → v < u32_limit → get_u32 (be 4 v ++ s) ≡ some (v, s)
unfolding be
get_u32_reads v s h =
    let back : of_be (be 4 v) % u32_limit ≡ v = omega (arith, of_be-be_u32 v h) in
    ap (λ n. some (n, s)) back

pub get_u64_reads : (v : ℕ) (s : List ℕ) → v < u64_limit → get_u64 (be 8 v ++ s) ≡ some (v, s)
unfolding be
get_u64_reads v s h =
    let back : of_be (be 8 v) % u64_limit ≡ v = omega (arith, of_be-be_u64 v h) in
    ap (λ n. some (n, s)) back

pub get_u32_takes :
    (s : List ℕ) → 4 ≤ length s → (v : ℕ) × (v < u32_limit) × (get_u32 s ≡ some (v, drop 4 s))
get_u32_takes (a ∷ b ∷ c ∷ d ∷ rest) h = (_, omega arith, refl)
get_u32_takes _ h = absurd (omega arith)

pub get_u64_takes :
    (s : List ℕ) → 8 ≤ length s → (v : ℕ) × (v < u64_limit) × (get_u64 s ≡ some (v, drop 8 s))
get_u64_takes (a ∷ b ∷ c ∷ d ∷ e ∷ f ∷ g ∷ h ∷ rest) l = (_, omega arith, refl)
get_u64_takes _ l = absurd (omega arith)

instance abbrev pub list_buf : ByteBuf
list_buf = record {
  put_u32 = λ buf v. buf ++ be 4 v;
  put_u64 = λ buf v. buf ++ be 8 v;
  extend_from_slice = λ buf v. buf ++ v;
  get_u32 = get_u32;
  get_u64 = get_u64;
  advance = advance;
  copy_to = copy_to;
  put_u32_appends = λ buf v h. refl;
  put_u64_appends = λ buf v h. refl;
  extend_appends = λ buf v. refl;
  get_u32_reads = get_u32_reads;
  get_u64_reads = get_u64_reads;
  get_u32_takes = get_u32_takes;
  get_u64_takes = get_u64_takes;
  advance_drops = λ n s h. ground arith;
  copy_takes = λ n s h. ground arith;
}
