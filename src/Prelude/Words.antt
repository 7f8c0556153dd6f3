-- ===== src/Prelude/Words.antt =====
-- Machine words: `usize` and `u64` are below 2 ^ 64, `u32` below 2 ^ 32. Big-endian bytes.
use Prim.Native.Nat.{ℕ, zero, suc, ◌+◌, ◌-◌, ◌*◌, ◌/◌, ◌%◌, ◌^◌, ◌<◌, min}
use mathlib.Core.Path.{◌≡◌, refl, ap}
use mathlib.Core.Option.{Option, none, some}
use mathlib.Core.List.{List, [], ◌∷◌}
use native.Mathlib.Omega.{arith}
use nfs_crust.Prelude.Tests.{ltb, if◌then◌else◌}
use nfs_crust.Prelude.Lists.{length}

abbrev pub u32_limit : ℕ
u32_limit = 2 ^ 32

abbrev pub u64_limit : ℕ
u64_limit = 2 ^ 64

abbrev pub checked_add : ℕ → ℕ → Option ℕ
checked_add a b = if ltb (a + b) u64_limit then some (a + b) else none

abbrev pub checked_mul : ℕ → ℕ → Option ℕ
checked_mul a b = if ltb (a * b) u64_limit then some (a * b) else none

abbrev pub saturating_add : ℕ → ℕ → ℕ
saturating_add a b = min (a + b) (u64_limit - 1)

abbrev pub saturating_mul : ℕ → ℕ → ℕ
saturating_mul a b = min (a * b) (u64_limit - 1)

-- The `k` bytes of `v`, the highest first; what does not fit is lost.
unfoldable pub be : ℕ → ℕ → List ℕ
be zero v = []
be (suc k) v = (v / 256 ^ k % 256) ∷ be k v

pub length-be : (k v : ℕ) → length (be k v) ≡ k
unfolding be
length-be zero v = refl
length-be (suc k) v = ap suc (length-be k v)

-- The number that bytes spell.
abbrev pub of_be : List ℕ → ℕ
of_be [] = 0
of_be (b ∷ bs) = b * 256 ^ length bs + of_be bs

pub of_be-be_u32 : (v : ℕ) → v < u32_limit → of_be (be 4 v) ≡ v
unfolding be
of_be-be_u32 v h = omega arith

pub of_be-be_u64 : (v : ℕ) → v < u64_limit → of_be (be 8 v) ≡ v
unfolding be
of_be-be_u64 v h = omega arith
