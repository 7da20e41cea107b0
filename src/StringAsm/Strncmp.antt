-- ===== src/StringAsm/Strncmp.antt =====
-- `strncmp` compares at most `n` bytes of two strings.
use amiga_dev.Common.{
  ℕ, zero, suc, take, ◌+◌, ◌^◌, ◌≤◌, ◌<◌, ◌≡◌, ◌≢◌, refl, List, [], ◌∷◌, length, arith, false, ltb,
  ◌==◌, Bool-cases, inl, inr,
}
use amiga_dev.Machine.{Cpu, flags, long, minus}
use amiga_dev.Machine.Run.{run, Returns, final}
use amiga_dev.StringAsm.{strncmp_code}
use amiga_dev.StringAsm.Order.{
  first_difference, difference, Orders, CString-chars, take-chars, difference-Orders,
}
use amiga_dev.StringAsm.Strings.{CString}

abbrev Compared : List ℕ → List ℕ → Cpu → Cpu → Type 0
Compared xs ys s t = (t.rd0 ≡ difference (first_difference xs ys)) × (t.mem ≡ s.mem)

-- The state behind the first subtraction, of the bytes `x` and `y`.
abbrev subtracted : ℕ → ℕ → Cpu → Cpu
subtracted x y s =
    flags long (ltb x y) (minus long x y)
      (record s { rd0 = minus long x y; rd1 = y; ra0 = s.ra0 + 1; ra1 = s.ra1 + 1 })

module _ (s : Cpu) (x y : ℕ) (ex : s.mem s.ra0 ≡ x) (ey : s.mem s.ra1 ≡ y) (hx : x < 256)
    (hy : y < 256) (e : s.rd0 ≡ 0) (e' : s.rd1 < 256) (fits : s.ra0 + 1 < 2 ^ 32)
    (fits' : s.ra1 + 1 < 2 ^ 32) where
  compare_bytes :
      {P : Cpu → Type 0}
      → 0 < y
      → Returns strncmp_code 16 (subtracted x y s) P
      → Returns strncmp_code 8 s P
  unfolding run
  compare_bytes pos (f, t, r, p) =
      let going : (y == 0) ≡ false = ground arith in (suc (suc (suc (suc f))), t, ground arith, p)

  compare_end : y ≡ 0 → Returns strncmp_code 8 s (λ t. (t.rd0 ≡ minus long x y) × (t.mem ≡ s.mem))
  unfolding run
  compare_end z =
      let t = final s (run strncmp_code 5 8 s) in (5, t, ground arith, (ground arith, ground arith))

-- Behind a subtraction of different bytes nothing changes any more.
differ_ends :
    (s : Cpu) (x y : ℕ)
    → x < 256
    → y < 256
    → x ≢ y
    → Returns strncmp_code 16 (subtracted x y s) (λ t. (t.rd0 ≡ minus long x y) × (t.mem ≡ s.mem))
unfolding run
differ_ends s x y hx hy ne =
    let going : (minus long x y == 0) ≡ false = ground arith in
    let t = final s (run strncmp_code 4 16 (subtracted x y s)) in
    (4, t, ground arith, (ground arith, ground arith))

-- One round is counted, unless none is left.
abbrev counted : ℕ → Cpu → Cpu
counted k s = flags long false k (record s { rd2 = k })

count_round :
    (s : Cpu) (k : ℕ) {P : Cpu → Type 0}
    → s.rd2 ≡ suc k
    → k < 2 ^ 31
    → Returns strncmp_code 8 (counted k s) P
    → Returns strncmp_code 4 s P
unfolding run
count_round s k e small (f, t, r, p) = (suc (suc f), t, ground arith, p)

loop :
    (n : ℕ) (xs ys : List ℕ) (s : Cpu)
    → CString s.mem s.ra0 xs
    → CString s.mem s.ra1 ys
    → s.ra0 + length xs + 1 < 2 ^ 32
    → s.ra1 + length ys + 1 < 2 ^ 32
    → s.rd2 ≡ n
    → n ≤ 2 ^ 31
    → s.rd0 ≡ 0
    → s.rd1 < 256
    → Returns strncmp_code 4 s (Compared (take n xs) (take n ys) s)
unfolding run
loop zero xs ys s h h' fits fits' count small e e' =
    (3, final s (run strncmp_code 3 4 s), ground arith, (ground arith, ground arith))
loop (suc n) [] [] s h h' fits fits' count small e e' = count_round s n count small (
    compare_end (counted n s) 0 0 h h' (omega arith) (omega arith) e e' (omega arith) (omega arith)
      refl)
loop (suc n) [] (y ∷ ys) s h (ey, ly, hy, h') fits fits' count small e e' =
    count_round s n count small (
      compare_bytes (counted n s) 0 y h ey (omega arith) hy e e' (omega arith) (omega arith) ly
        (differ_ends (counted n s) 0 y (omega arith) hy (omega arith)))
loop (suc n) (x ∷ xs) [] s (ex, lx, hx, h) h' fits fits' count small e e' =
    count_round s n count small
      (compare_end (counted n s) x 0 ex h' hx (omega arith) e e' (omega arith) (omega arith) refl)
loop (suc n) (x ∷ xs) (y ∷ ys) s (ex, lx, hx, h) (ey, ly, hy, h') fits fits' count small e e' =
    count_round s n count small (elim (Bool-cases (x == y)) [
      | inl same ↦
          let next = subtracted x y (counted n s) in
          let (f, t, r, (p, q)) =
            loop n xs ys next h h' (omega arith) (omega arith) refl (omega arith) (ground arith)
              hy in
          compare_bytes (counted n s) x y ex ey hx hy e e' (omega arith) (omega arith) ly
            (suc f, t, ground arith, (rw same p, q))
      | inr differ ↦ rw differ (
          compare_bytes (counted n s) x y ex ey hx hy e e' (omega arith) (omega arith) ly
            (differ_ends (counted n s) x y hx hy (ground arith)))
    ])

abbrev entered : Cpu → Cpu
entered s = flags long false 0 (record s { rd0 = 0; rd1 = 0 })

-- For a count of at most 2^31 in `d2`, `strncmp` orders the first `n` bytes of two strings: zero
-- exactly when they are equal, negative exactly when the first come before the second; it writes
-- nothing.
pub strncmp-Orders :
    (n : ℕ) (xs ys : List ℕ) (s : Cpu)
    → CString s.mem s.ra0 xs
    → CString s.mem s.ra1 ys
    → s.ra0 + length xs + 1 < 2 ^ 32
    → s.ra1 + length ys + 1 < 2 ^ 32
    → s.rd2 ≡ n
    → n ≤ 2 ^ 31
    → Returns strncmp_code 0 s (λ t. Orders (take n xs) (take n ys) t.rd0 × (t.mem ≡ s.mem))
unfolding run
strncmp-Orders n xs ys s h h' fits fits' count small =
    let (f, t, r, (p, q)) =
      loop n xs ys (entered s) h h' fits fits' count small refl (omega arith) in
    let orders =
      difference-Orders (take n xs) (take n ys) (take-chars n xs (CString-chars xs s.mem s.ra0 h))
        (take-chars n ys (CString-chars ys s.mem s.ra1 h')) in
    (suc (suc f), t, r, (rw p orders, q))
