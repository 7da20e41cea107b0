-- ===== src/StringAsm/For68020/Words.antt =====
-- Moves of words as copies of two bytes.
use mathlib.Core.Path.{fun_ext, subst}
use amiga_dev.Common.{ℕ, ◌+◌, ◌*◌, ◌/◌, ◌%◌, ◌^◌, ◌≡◌, arith, sym}
use amiga_dev.Machine.{Memory, update}
use amiga_dev.StringAsm.Strings.{IsBytes, Upwards, copied}
use amiga_dev.StringAsm.Copies.{IsBytes-copied, copied-append, copied-append_back, Downwards}

-- A word's two bytes, the more significant first.
abbrev pub two : Memory → ℕ → ℕ → Memory
two m d v = update (update m d (v / 2 ^ 8 % 2 ^ 8)) (d + 1) (v % 2 ^ 8)

abbrev pub word_at : Memory → ℕ → ℕ
word_at m s = m s * 2 ^ 8 + m (s + 1)

two-copied : (m : Memory) (d s : ℕ) → IsBytes m → two m d (word_at m s) ≡ copied m d s 2
two-copied m d s h = fun_ext λ j.
    let b0 = h s in
    let b1 = h (s + 1) in
    let hi : (m s * 2 ^ 8 + m (s + 1)) / 2 ^ 8 % 2 ^ 8 ≡ m s = omega arith in
    let low : (m s * 2 ^ 8 + m (s + 1)) % 2 ^ 8 ≡ m (s + 1) = omega arith in
    rw (hi, low) (ground arith)

-- A word moved and `n` bytes copied behind it are `2 + n` bytes copied.
pub two-copied_append :
    (m : Memory) (d s n : ℕ)
    → IsBytes m
    → Upwards d s (2 + n)
    → copied (two m d (word_at m s)) (d + 2) (s + 2) n ≡ copied m d s (2 + n)
two-copied_append m d s n bytes up = rw (two-copied m d s bytes) (copied-append m d s 2 n up)

-- A word moved and `n` bytes copied below it are `n + 2` bytes copied.
pub two-copied_append_back :
    (m : Memory) (d s n : ℕ)
    → IsBytes m
    → Downwards d s (n + 2)
    → copied (two m (d + n) (word_at m (s + n))) d s n ≡ copied m d s (n + 2)
two-copied_append_back m d s n bytes down =
    rw (two-copied m (d + n) (s + n) bytes) (copied-append_back m d s n 2 down)

pub IsBytes-two : (m : Memory) (d s : ℕ) → IsBytes m → IsBytes (two m d (word_at m s))
IsBytes-two m d s bytes =
    subst IsBytes (sym (two-copied m d s bytes)) (IsBytes-copied m d s 2 bytes)
