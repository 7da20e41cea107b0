-- ===== src/NameServer/Bits.antt =====
-- `|` with a byte below a number whose low byte is clear, as a sum.
use Prim.Native.Nat.{ℕ, zero, suc, ◌+◌, ◌/◌, ◌%◌, ◌≤◌, ◌<◌, max, bit_or, digits, bit_or-bitwise}
use mathlib.Core.Path.{◌≡◌, refl}
use native.Mathlib.Omega.{arith}

-- The lowest `k` binary digits are zero.
abbrev Clear : ℕ → ℕ → Type 0
Clear zero x = Unit
Clear (suc k) x = (x % 2 ≡ 0) × Clear k (x / 2)

-- The number has at most `k` binary digits.
abbrev Short : ℕ → ℕ → Type 0
Short zero b = b ≡ 0
Short (suc k) b = Short k (b / 2)

abbrev or_digits : ℕ → ℕ → ℕ → ℕ
or_digits n x b = digits (λ y. y) max n x b

or_digits-zero : (n x : ℕ) → x ≤ n → or_digits n x 0 ≡ x
or_digits-zero zero zero h = refl
or_digits-zero zero (suc x) h = absurd (omega arith)
or_digits-zero (suc n) zero h = refl
or_digits-zero (suc n) (suc x) h = omega (arith, or_digits-zero n (suc x / 2) (omega arith))

or_digits-add : (k n x b : ℕ) → x ≤ n → Clear k x → Short k b → or_digits n x b ≡ x + b
or_digits-add zero n x b h c s = rw s (omega (arith, or_digits-zero n x h))
or_digits-add (suc k) zero zero b h c s = omega arith
or_digits-add (suc k) zero (suc x) b h c s = absurd (omega arith)
or_digits-add (suc k) (suc n) zero b h c s = omega arith
or_digits-add (suc k) (suc n) (suc x) b h (e, c) s =
    omega (arith, or_digits-add k n (suc x / 2) (b / 2) (omega arith) c s)

pub bit_or-add : (x b : ℕ) → x % 256 ≡ 0 → b < 256 → bit_or x b ≡ x + b
bit_or-add x b clear byte = omega (
  arith,
  bit_or-bitwise x b,
  or_digits-add 8 x x b (omega arith)
      (
        omega arith,
        (
          omega arith,
          (
            omega arith,
            (omega arith, (omega arith, (omega arith, (omega arith, (omega arith, tt))))),
          ),
        ),
      )
      (omega arith),
)
