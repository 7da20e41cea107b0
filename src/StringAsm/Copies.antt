-- ===== src/StringAsm/Copies.antt =====
-- The laws of block copies.
use mathlib.Core.Path.{fun_ext, subst}
use amiga_dev.Common.{ℕ, suc, ◌+◌, ◌-◌, ◌*◌, ◌/◌, ◌%◌, ◌^◌, ◌≤◌, ◌<◌, ◌≡◌, ◌⊎◌, arith, sym}
use amiga_dev.Machine.{Memory, update}
use amiga_dev.StringAsm.Strings.{IsBytes, Upwards, copied}

pub IsBytes-update : (m : Memory) (p v : ℕ) → IsBytes m → v < 256 → IsBytes (update m p v)
IsBytes-update m p v h small = λ a. ground (arith, h a)

pub IsBytes-copied : (m : Memory) (d s n : ℕ) → IsBytes m → IsBytes (copied m d s n)
IsBytes-copied m d s n h = λ j. ground (arith, h j, h (s + (j - d)))

-- A longword's four bytes, the most significant first.
abbrev pub four : Memory → ℕ → ℕ → Memory
four m d v =
    update
      (update (update (update m d (v / 2 ^ 24 % 2 ^ 8)) (d + 1) (v / 2 ^ 16 % 2 ^ 8)) (d + 2)
        (v / 2 ^ 8 % 2 ^ 8))
      (d + 3) (v % 2 ^ 8)

abbrev pub longword : Memory → ℕ → ℕ
longword m s = m s * 2 ^ 24 + m (s + 1) * 2 ^ 16 + m (s + 2) * 2 ^ 8 + m (s + 3)

longword_bytes :
    (a b c d : ℕ)
    → a < 256
    → b < 256
    → c < 256
    → d < 256
    → let v = a * 2 ^ 24 + b * 2 ^ 16 + c * 2 ^ 8 + d in
      (v / 2 ^ 24 % 2 ^ 8 ≡ a)
      × (v / 2 ^ 16 % 2 ^ 8 ≡ b)
      × (v / 2 ^ 8 % 2 ^ 8 ≡ c)
      × (v % 2 ^ 8 ≡ d)
longword_bytes a b c d ha hb hc hd = omega arith

four_updates : Memory → ℕ → ℕ → ℕ → ℕ → ℕ → Memory
four_updates m d w x y z = update (update (update (update m d w) (d + 1) x) (d + 2) y) (d + 3) z

four_updates-copied :
    (m : Memory) (d s j : ℕ)
    → four_updates m d (m s) (m (s + 1)) (m (s + 2)) (m (s + 3)) j ≡ copied m d s 4 j
unfolding four_updates
four_updates-copied m d s j = ground arith

-- A move of a longword is a copy of four bytes, whether or not the two overlap.
pub four-copied : (m : Memory) (d s : ℕ) → IsBytes m → four m d (longword m s) ≡ copied m d s 4
unfolding four_updates
four-copied m d s h = fun_ext λ j.
    let (e0, e1, e2, e3) =
      longword_bytes (m s) (m (s + 1)) (m (s + 2)) (m (s + 3)) (h s) (h (s + 1)) (h (s + 2))
        (h (s + 3)) in
    rw (e0, e1, e2, e3) (four_updates-copied m d s j)

pub copied-append :
    (m : Memory) (d s i n : ℕ)
    → Upwards d s (i + n)
    → copied (copied m d s i) (d + i) (s + i) n ≡ copied m d s (i + n)
copied-append m d s i n up = fun_ext λ j. ground arith

-- A copy downwards from the upper end reads nothing that it has written.
abbrev pub Downwards : ℕ → ℕ → ℕ → Type 0
Downwards d s n = (s ≤ d) ⊎ (d + n ≤ s)

-- The last byte first, then the others.
pub copied-last :
    (m : Memory) (d s n : ℕ)
    → Downwards d s (suc n)
    → copied (update m (d + n) (m (s + n))) d s n ≡ copied m d s (suc n)
copied-last m d s n down = fun_ext λ j. ground arith

pub copied-append_back :
    (m : Memory) (d s n i : ℕ)
    → Downwards d s (n + i)
    → copied (copied m (d + n) (s + n) i) d s n ≡ copied m d s (n + i)
copied-append_back m d s n i down = fun_ext λ j. ground arith

-- A longword moved and `n` bytes copied behind it are `4 + n` bytes copied.
pub four-copied_append :
    (m : Memory) (d s n : ℕ)
    → IsBytes m
    → Upwards d s (4 + n)
    → copied (four m d (longword m s)) (d + 4) (s + 4) n ≡ copied m d s (4 + n)
four-copied_append m d s n bytes up = rw (four-copied m d s bytes) (copied-append m d s 4 n up)

-- A longword moved and `n` bytes copied below it are `n + 4` bytes copied.
pub four-copied_append_back :
    (m : Memory) (d s n : ℕ)
    → IsBytes m
    → Downwards d s (n + 4)
    → copied (four m (d + n) (longword m (s + n))) d s n ≡ copied m d s (n + 4)
four-copied_append_back m d s n bytes down =
    rw (four-copied m (d + n) (s + n) bytes) (copied-append_back m d s n 4 down)

pub IsBytes-four : (m : Memory) (d s : ℕ) → IsBytes m → IsBytes (four m d (longword m s))
IsBytes-four m d s bytes =
    subst IsBytes (sym (four-copied m d s bytes)) (IsBytes-copied m d s 4 bytes)
