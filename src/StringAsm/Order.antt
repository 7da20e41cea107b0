-- ===== src/StringAsm/Order.antt =====
-- The order of strings that `strcmp` and `strncmp` compute.
use amiga_dev.Common.{
  ℕ, ◌+◌, ◌^◌, ◌≤◌, ◌<◌, ◌≡◌, ◌⊎◌, ◌↔◌, List, [], ◌∷◌, arith, ◌==◌, if◌then◌else◌, Bool-cases, inl,
  inr, All, take, zero, suc,
}
use amiga_dev.Machine.{Memory, long, minus}
use amiga_dev.StringAsm.Strings.{CString}

-- The first two bytes that differ, where the end of a string counts as 0.
abbrev pub first_difference : List ℕ → List ℕ → ℕ × ℕ
first_difference [] [] = (0, 0)
first_difference [] (y ∷ ys) = (0, y)
first_difference (x ∷ xs) [] = (x, 0)
first_difference (x ∷ xs) (y ∷ ys) = if x == y then first_difference xs ys else (x, y)

abbrev pub difference : ℕ × ℕ → ℕ
difference (x, y) = minus long x y

-- The order of the dictionary.
abbrev pub Less : List ℕ → List ℕ → Type 0
Less [] [] = ⊥
Less [] (y ∷ ys) = Unit
Less (x ∷ xs) [] = ⊥
Less (x ∷ xs) (y ∷ ys) = (x < y) ⊎ ((x ≡ y) × Less xs ys)

abbrev pub IsChar : ℕ → Type 0
IsChar c = (0 < c) × (c < 256)

pub CString-chars : (cs : List ℕ) (m : Memory) (a : ℕ) → CString m a cs → All IsChar cs
CString-chars [] m a h = tt
CString-chars (c ∷ cs) m a (e, lo, hi, h) = ((lo, hi), CString-chars cs m (a + 1) h)

pub take-chars : (n : ℕ) (cs : List ℕ) → All IsChar cs → All IsChar (take n cs)
take-chars zero cs h = tt
take-chars (suc n) [] h = tt
take-chars (suc n) (c ∷ cs) (p, h) = (p, take-chars n cs h)

-- As a 32-bit integer the result is zero or negative.
abbrev pub Orders : List ℕ → List ℕ → ℕ → Type 0
Orders xs ys r = ((r ≡ 0) ↔ (xs ≡ ys)) × ((2 ^ 31 ≤ r) ↔ Less xs ys)

pub difference-Orders :
    (xs ys : List ℕ)
    → All IsChar xs
    → All IsChar ys
    → Orders xs ys (difference (first_difference xs ys))
difference-Orders [] [] h k = ground arith
difference-Orders [] (y ∷ ys) h ((lo, hi), k) = ground arith
difference-Orders (x ∷ xs) [] ((lo, hi), h) k = ground arith
difference-Orders (x ∷ xs) (y ∷ ys) ((lx, hx), h) ((ly, hy), k) = elim (Bool-cases (x == y)) [
  | inl same ↦ rw same (ground (arith, difference-Orders xs ys h k))
  | inr differ ↦ rw differ (ground arith)
]
