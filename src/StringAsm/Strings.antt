-- ===== src/StringAsm/Strings.antt =====
-- What memory holds: strings, bytes and the result of a copy.
use mathlib.Core.Path.{fun_ext}
use native.Mathlib.Nat.{add-zero}
use amiga_dev.Common.{
  ℕ, suc, ◌+◌, ◌-◌, ◌≤◌, ◌<◌, ◌≡◌, ◌⊎◌, List, [], ◌∷◌, ◌++◌, length, arith, ltb, leb, ◌&&◌,
  if◌then◌else◌,
}
use amiga_dev.Machine.{Memory, update}

-- At `a` stand the non-zero bytes `cs` and then a zero.
abbrev pub CString : Memory → ℕ → List ℕ → Type 0
CString m a [] = m a ≡ 0
CString m a (c ∷ cs) = (m a ≡ c) × (0 < c) × (c < 256) × CString m (a + 1) cs

abbrev pub IsBytes : Memory → Type 0
IsBytes m = (a : ℕ) → m a < 256

-- The `n` bytes at `s`, as they are in `m`, at `d`; the rest as in `m`.
abbrev pub copied : Memory → ℕ → ℕ → ℕ → Memory
copied m d s n j = if leb d j && ltb j (d + n) then m (s + (j - d)) else m j

-- A copy upwards from the lower end reads nothing that it has written.
abbrev pub Upwards : ℕ → ℕ → ℕ → Type 0
Upwards d s n = (d ≤ s) ⊎ (s + n ≤ d)

pub CString-update :
    (cs : List ℕ) (m : Memory) (a p v : ℕ)
    → (p < a) ⊎ (a + length cs < p)
    → CString m a cs
    → CString (update m p v) a cs
CString-update [] m a p v apart h = ground arith
CString-update (c ∷ cs) m a p v apart (e, lo, hi, h) =
    (ground arith, lo, hi, CString-update cs m (a + 1) p v (omega arith) h)

pub copied-zero : (m : Memory) (d s : ℕ) → copied m d s 0 ≡ m
copied-zero m d s = fun_ext λ j. ground arith

-- One byte first, then the others.
pub copied-suc :
    (m : Memory) (d s n : ℕ)
    → Upwards d s (suc n)
    → copied (update m d (m s)) (d + 1) (s + 1) n ≡ copied m d s (suc n)
copied-suc m d s n up = fun_ext λ j. ground arith

-- A string stands wherever the same bytes stand.
pub CString-transfer :
    (cs : List ℕ) (m m' : Memory) (a a' : ℕ)
    → ((i : ℕ) → i ≤ length cs → m' (a' + i) ≡ m (a + i))
    → CString m a cs
    → CString m' a' cs
CString-transfer [] m m' a a' same h = ground (arith, same 0)
CString-transfer (c ∷ cs) m m' a a' same (e, lo, hi, h) = (
  ground (arith, same 0),
  lo,
  hi,
  CString-transfer cs m m' (a + 1) (a' + 1) (λ i le. ground (arith, same (i + 1))) h,
)

-- A copy of a string with its terminator is that string.
pub CString-copied :
    (cs : List ℕ) (m : Memory) (d s : ℕ)
    → CString m s cs
    → CString (copied m d s (suc (length cs))) d cs
CString-copied cs m d s h =
    CString-transfer cs m (copied m d s (suc (length cs))) s d (λ i le. ground arith) h

-- Two strings behind one another are the joined string, without the first terminator.
pub CString-append :
    (xs ys : List ℕ) (m m' : Memory) (a : ℕ)
    → CString m a xs
    → ((i : ℕ) → i < length xs → m' (a + i) ≡ m (a + i))
    → CString m' (a + length xs) ys
    → CString m' a (xs ++ ys)
CString-append [] ys m m' a h same h' = rw add-zero at h'
CString-append (x ∷ xs) ys m m' a (e, lo, hi, h) same h' =
    let next : a + 1 + length xs ≡ a + length (x ∷ xs) = omega arith in
    (
      ground (arith, same 0),
      lo,
      hi,
      CString-append xs ys m m' (a + 1) h (λ i lt. ground (arith, same (i + 1))) (rw next h'),
    )
