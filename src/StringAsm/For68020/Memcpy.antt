-- ===== src/StringAsm/For68020/Memcpy.antt =====
-- `memcpy` for the 68020: up to three bytes to align the destination, longwords, and the bytes
-- that are left. `d2` holds the bytes that are left, less four.
pub mod Entry
use amiga_dev.Common.{
  ℕ, zero, suc, ◌+◌, ◌-◌, ◌*◌, ◌/◌, ◌%◌, ◌^◌, ◌≤◌, ◌<◌, ◌≡◌, arith, true, false, ltb, leb, ◌==◌,
  Bool-cases, inl, inr, ◌∙◌, sym, refl, ap, ltb→lt, Bool,
}
use amiga_dev.Machine.{Cpu, flags, byte, word, long, update, half}
use amiga_dev.Machine.Run.{run, Returns, final}
use amiga_dev.StringAsm.Strings.{IsBytes, Upwards, copied, copied-suc, copied-zero}
use amiga_dev.StringAsm.Copies.{IsBytes-update, IsBytes-four, four, longword, four-copied_append}
use amiga_dev.StringAsm.Memcpy.{Copies, Fits, one_moved}
use amiga_dev.StringAsm.For68020.{memcpy_020_code}
use amiga_dev.StringAsm.For68020.Bytes.{Moved, byte_loop}
use amiga_dev.StringAsm.For68020.Words.{two, word_at, two-copied_append, IsBytes-two}

-- `d2` when `r` bytes are left.
abbrev pub left : ℕ → ℕ
left r = (r + 2 ^ 32 - 4) % 2 ^ 32

-- `d2` becomes `k`, with a borrow or a carry if the flag says so.
abbrev pub set_left : Cpu → Bool → ℕ → Cpu
set_left s borrow k = flags long borrow k (record s { rd2 = k })

tail_none :
    (s : Cpu) {P : Cpu → Type 0}
    → s.rd2 ≡ left 0
    → P (set_left s false (2 ^ 32 - 1))
    → Returns memcpy_020_code 36 s P
unfolding run
tail_none s e p = (3, set_left s false (2 ^ 32 - 1), ground arith, p)

tail_some :
    (s : Cpu) (k : ℕ) {P : Cpu → Type 0}
    → s.rd2 ≡ left (suc k)
    → k < 3
    → Returns memcpy_020_code 40 (set_left s true k) P
    → Returns memcpy_020_code 36 s P
unfolding run
tail_some s k e small (f, t, r, p) = (suc (suc f), t, ground arith, p)

ended : (s : Cpu) {P : Cpu → Type 0} → P s → Returns memcpy_020_code 46 s P
unfolding run
ended s p = (1, s, refl, p)

pub tail :
    (r : ℕ) (s : Cpu)
    → IsBytes s.mem
    → Upwards s.ra0 s.ra1 r
    → Fits r s
    → s.rd2 ≡ left r
    → r < 4
    → Returns memcpy_020_code 36 s (Copies r s)
tail zero s bytes up fits e small = tail_none s e (refl, sym (copied-zero s.mem s.ra0 s.ra1))
tail (suc k) s bytes up fits e small = tail_some s k e (omega arith) (
    byte_loop memcpy_020_code 40 k (set_left s true k) (refl, refl) bytes up fits refl (omega arith)
      (λ t (d, m, a). ended t (d, m)))

-- A longword moved.
abbrev four_moved : Cpu → Bool → ℕ → Cpu
four_moved s borrow k =
    set_left
      (record s { ra0 = s.ra0 + 4; ra1 = s.ra1 + 4; mem = four s.mem s.ra0 (longword s.mem s.ra1) })
      borrow k

longs_again :
    (s : Cpu) (r : ℕ) {P : Cpu → Type 0}
    → Fits 4 s
    → s.rd2 ≡ r + 4
    → r + 4 < 2 ^ 32
    → Returns memcpy_020_code 30 (four_moved s false r) P
    → Returns memcpy_020_code 30 s P
unfolding run
longs_again s r (fit, fit') e small (f, t, r', p) = (suc (suc (suc f)), t, ground arith, p)

longs_end :
    (s : Cpu) (r : ℕ) {P : Cpu → Type 0}
    → Fits 4 s
    → s.rd2 ≡ r
    → r < 4
    → Returns memcpy_020_code 36 (four_moved s true (left r)) P
    → Returns memcpy_020_code 30 s P
unfolding run
longs_end s r (fit, fit') e small (f, t, r', p) = (suc (suc (suc f)), t, ground arith, p)

-- From the longword loop on, with `4 + (4 * q + r)` bytes left.
longs :
    (q r n : ℕ) (s : Cpu)
    → n ≡ 4 + (4 * q + r)
    → IsBytes s.mem
    → Upwards s.ra0 s.ra1 n
    → Fits n s
    → s.rd2 ≡ 4 * q + r
    → r < 4
    → Returns memcpy_020_code 30 s (Copies n s)
longs zero r n s size bytes up fits e small =
    let s' = four_moved s true (left r) in
    let m' = IsBytes-four s.mem s.ra0 s.ra1 bytes in
    let (f, t, run, (p, w)) = tail r s' m' (omega arith) (omega arith) refl small in
    let all = four-copied_append s.mem s.ra0 s.ra1 r bytes (omega arith) in
    let total : 4 + r ≡ n = omega arith in
    longs_end s r (omega arith) (omega arith) small
      (f, t, run, (p, w ∙ all ∙ ap (copied s.mem s.ra0 s.ra1) total))
longs (suc q) r n s size bytes up fits e small =
    let k = 4 * q + r in
    let m' = IsBytes-four s.mem s.ra0 s.ra1 bytes in
    let (f, t, run, (p, w)) =
      longs q r (4 + k) (four_moved s false k) refl m' (omega arith) (omega arith) refl small in
    let all = four-copied_append s.mem s.ra0 s.ra1 (4 + k) bytes (omega arith) in
    let total : 4 + (4 + k) ≡ n = omega arith in
    longs_again s k (omega arith) (omega arith) (omega arith)
      (f, t, run, (p, w ∙ all ∙ ap (copied s.mem s.ra0 s.ra1) total))

-- At least a longword, or a few bytes.
pub rest :
    (n : ℕ) (s : Cpu)
    → IsBytes s.mem
    → Upwards s.ra0 s.ra1 n
    → Fits n s
    → 4 ≤ n
    → s.rd2 ≡ n - 4
    → Returns memcpy_020_code 30 s (Copies n s)
rest n s bytes up fits large e =
    longs (n / 4 - 1) (n % 4) n s (omega arith) bytes up fits (omega arith) (omega arith)

-- The test of bit 1 of the destination.
abbrev pub halved : Cpu → Bool → Cpu
halved s bit = flags long bit (s.rd1 / 2) (record s { rd1 = s.rd1 / 2 })

pub no_word :
    (s : Cpu) {P : Cpu → Type 0}
    → (s.rd1 % 2 == 1) ≡ false
    → Returns memcpy_020_code 30 (halved s false) P
    → Returns memcpy_020_code 20 s P
unfolding run
no_word s bit (f, t, r, p) = (suc (suc f), t, ground arith, p)

abbrev pub two_moved : Cpu → Bool → ℕ → Cpu
two_moved s borrow k =
    set_left
      (record s { ra0 = s.ra0 + 2; ra1 = s.ra1 + 2; mem = two s.mem s.ra0 (word_at s.mem s.ra1) })
      borrow k

pub word_more :
    (s : Cpu) (k : ℕ) {P : Cpu → Type 0}
    → (s.rd1 % 2 == 1) ≡ true
    → Fits 2 s
    → s.rd2 ≡ k + 2
    → k + 2 < 2 ^ 32
    → Returns memcpy_020_code 30 (two_moved (halved s true) false k) P
    → Returns memcpy_020_code 20 s P
unfolding run
word_more s k bit (fit, fit') e small (f, t, r, p) =
    (suc (suc (suc (suc (suc f)))), t, ground arith, p)

pub word_last :
    (s : Cpu) (r : ℕ) {P : Cpu → Type 0}
    → (s.rd1 % 2 == 1) ≡ true
    → Fits 2 s
    → s.rd2 + 2 ≡ r
    → r < 4
    → Returns memcpy_020_code 36 (two_moved (halved s true) true (left r)) P
    → Returns memcpy_020_code 20 s P
unfolding run
word_last s r bit (fit, fit') e small (f, t, r', p) =
    (suc (suc (suc (suc (suc f)))), t, ground arith, p)
