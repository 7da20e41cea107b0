-- ===== src/Common/Bits.antt =====
-- `&` with a mask of one or two low bits, as a remainder.
use Prim.Native.Nat.{ℕ, zero, suc, ◌/◌, ◌%◌, ◌≤◌, min, bit_and, digits, bit_and-bitwise}
use mathlib.Core.Path.{◌≡◌, refl}
use native.Mathlib.Omega.{arith}

-- The binary digits of `a & mask`, at most `k` of them.
abbrev masked : ℕ → ℕ → ℕ → ℕ
masked mask k a = digits (λ x. zero) min k a mask

masked-0 : (k a : ℕ) → masked 0 k a ≡ 0
masked-0 zero zero = refl
masked-0 zero (suc a) = refl
masked-0 (suc k) zero = refl
masked-0 (suc k) (suc a) = omega (arith, masked-0 k (suc a / 2))

masked-1 : (k a : ℕ) → a ≤ k → masked 1 k a ≡ a % 2
masked-1 zero zero enough = refl
masked-1 zero (suc a) enough = absurd (omega arith)
masked-1 (suc k) zero enough = refl
masked-1 (suc k) (suc a) enough = omega (arith, masked-0 k (suc a / 2))

masked-3 : (k a : ℕ) → a ≤ k → masked 3 k a ≡ a % 4
masked-3 zero zero enough = refl
masked-3 zero (suc a) enough = absurd (omega arith)
masked-3 (suc k) zero enough = refl
masked-3 (suc k) (suc a) enough = omega (arith, masked-1 k (suc a / 2) (omega arith))

pub one-bit_and : (a : ℕ) → bit_and 1 a ≡ a % 2
one-bit_and a = omega (arith, bit_and-bitwise 1 a)

pub bit_and-one : (a : ℕ) → bit_and a 1 ≡ a % 2
bit_and-one a = omega (arith, bit_and-bitwise a 1, masked-1 a a (omega arith))

pub bit_and-three : (a : ℕ) → bit_and a 3 ≡ a % 4
bit_and-three a = omega (arith, bit_and-bitwise a 3, masked-3 a a (omega arith))
