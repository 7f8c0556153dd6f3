-- ===== src/Prelude/Bits.antt =====
-- `bit_and` with a low mask as a remainder, at every number.
use Prim.Native.Nat.{ℕ, zero, suc, ◌+◌, ◌*◌, ◌/◌, ◌%◌, ◌≤◌, min, bit_and, digits, bit_and-bitwise}
use mathlib.Core.Path.{◌≡◌, refl, sym, ◌∙◌}
use native.Mathlib.Omega.{arith}

-- The digit recursion that `bit_and` stands for, over `rounds`.
abbrev common_bits : ℕ → ℕ → ℕ → ℕ
common_bits rounds a b = digits (λ y. zero) min rounds a b

common_bits-zero : (n b : ℕ) → common_bits n 0 b ≡ 0
common_bits-zero zero b = refl
common_bits-zero (suc n) b = refl

-- It needs no more rounds than its first argument.
enough_rounds : (n m a b : ℕ) → a ≤ n → a ≤ m → common_bits n a b ≡ common_bits m a b
enough_rounds n m zero b p q = common_bits-zero n b ∙ sym (common_bits-zero m b)
enough_rounds zero m (suc a) b p q = absurd (omega arith)
enough_rounds (suc n) zero (suc a) b p q = absurd (omega arith)
enough_rounds (suc n) (suc m) (suc a) b p q =
    omega (arith, enough_rounds n m (suc a / 2) (b / 2) (omega arith) (omega arith))

-- The lowest digit and the rest.
bit_and-halves : (a b : ℕ) → bit_and a b ≡ bit_and (a / 2) (b / 2) * 2 + min (a % 2) (b % 2)
bit_and-halves zero b = omega (arith, bit_and-bitwise 0 b, bit_and-bitwise 0 (b / 2))
bit_and-halves (suc a) b = omega (
  arith,
  bit_and-bitwise (suc a) b,
  bit_and-bitwise (suc a / 2) (b / 2),
  enough_rounds a (suc a / 2) (suc a / 2) (b / 2) (omega arith) (omega arith),
)

zero_mask : (n a : ℕ) → a ≤ n → bit_and a 0 ≡ 0
zero_mask n zero h = refl
zero_mask zero (suc a) h = absurd (omega arith)
zero_mask (suc n) (suc a) h =
    omega (arith, bit_and-halves (suc a) 0, zero_mask n (suc a / 2) (omega arith))

bit_and-one : (a : ℕ) → bit_and a 1 ≡ a % 2
bit_and-one a = omega (arith, bit_and-halves a 1, zero_mask (a / 2) (a / 2) (omega arith))

pub bit_and-three : (a : ℕ) → bit_and a 3 ≡ a % 4
bit_and-three a = omega (arith, bit_and-halves a 3, bit_and-one (a / 2))
