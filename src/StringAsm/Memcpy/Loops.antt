-- ===== src/StringAsm/Memcpy/Loops.antt =====
-- The two long loops of `memcpy`: longwords between even addresses, and bytes for large areas.
use amiga_dev.Common.{
  ℕ, zero, suc, ◌+◌, ◌*◌, ◌%◌, ◌^◌, ◌<◌, ◌≡◌, arith, true, false, ◌==◌, ◌∙◌, sym, refl, ap,
}
use amiga_dev.Machine.{Cpu, flags, word, long, update}
use amiga_dev.Machine.Run.{run, Returns}
use amiga_dev.StringAsm.{memcpy_code}
use amiga_dev.StringAsm.Strings.{IsBytes, Upwards, copied, copied-suc, copied-zero}
use amiga_dev.StringAsm.Copies.{IsBytes-update, IsBytes-four, four, longword, four-copied_append}
use amiga_dev.StringAsm.Memcpy.{Copies, Fits, one_moved, tail}

-- A round of the longword loop.
abbrev four_moved : Cpu → ℕ → Cpu
four_moved s k = flags long false k (record s {
  rd2 = k;
  ra0 = s.ra0 + 4;
  ra1 = s.ra1 + 4;
  mem = four s.mem s.ra0 (longword s.mem s.ra1);
})

abbrev pub Even : Cpu → Type 0
Even s = (s.ra0 % 2 ≡ 0) × (s.ra1 % 2 ≡ 0)

longs_again :
    (s : Cpu) (k : ℕ) {P : Cpu → Type 0}
    → Even s
    → Fits 4 s
    → s.rd2 ≡ k + 4
    → 0 < k
    → k + 4 < 2 ^ 32
    → Returns memcpy_code 50 (four_moved s k) P
    → Returns memcpy_code 50 s P
unfolding run
longs_again s k (even, even') (fit, fit') e pos small (f, t, r, p) =
    let align : (s.ra0 % 2 == 0) ≡ true = ground arith in
    let align' : (s.ra1 % 2 == 0) ≡ true = ground arith in (suc (suc (suc f)), t, ground arith, p)

longs_end :
    (s : Cpu) {P : Cpu → Type 0}
    → Even s
    → Fits 4 s
    → s.rd2 ≡ 4
    → s.rd1 < 4
    → Returns memcpy_code 58 (flags word false s.rd1 (record (four_moved s 0) { rd2 = s.rd1 })) P
    → Returns memcpy_code 50 s P
unfolding run
longs_end s (even, even') (fit, fit') e small (f, t, r, p) =
    let align : (s.ra0 % 2 == 0) ≡ true = ground arith in
    let align' : (s.ra1 % 2 == 0) ≡ true = ground arith in
    (suc (suc (suc (suc f))), t, ground arith, p)

-- From the longword loop on, with `d2` the bytes in longwords and `d1` the bytes left over.
pub longs :
    (q r n : ℕ) (s : Cpu)
    → n ≡ 4 + (4 * q + r)
    → IsBytes s.mem
    → Upwards s.ra0 s.ra1 n
    → Fits n s
    → Even s
    → s.rd2 ≡ 4 * q + 4
    → s.rd1 ≡ r
    → r < 4
    → Returns memcpy_code 50 s (Copies n s)
longs zero r n s size bytes up fits even e e' small =
    let s' = flags word false s.rd1 (record (four_moved s 0) { rd2 = s.rd1 }) in
    let m' = IsBytes-four s.mem s.ra0 s.ra1 bytes in
    let (f, t, run, (p, q)) = tail r s' m' (omega arith) (omega arith) e' (omega arith) in
    let all = four-copied_append s.mem s.ra0 s.ra1 r bytes (omega arith) in
    let total : 4 + r ≡ n = omega arith in
    longs_end s even (omega arith) (omega arith) (omega arith)
      (f, t, run, (p, q ∙ all ∙ ap (copied s.mem s.ra0 s.ra1) total))
longs (suc q) r n s size bytes up fits even e e' small =
    let k = 4 * q + 4 in
    let m' = IsBytes-four s.mem s.ra0 s.ra1 bytes in
    let (f, t, run, (p, w)) =
      longs q r (4 + (4 * q + r)) (four_moved s k) refl m' (omega arith) (omega arith) (omega arith)
        refl e' small in
    let all = four-copied_append s.mem s.ra0 s.ra1 (4 + (4 * q + r)) bytes (omega arith) in
    let total : 4 + (4 + (4 * q + r)) ≡ n = omega arith in
    longs_again s k even (omega arith) (omega arith) (omega arith) (omega arith)
      (f, t, run, (p, w ∙ all ∙ ap (copied s.mem s.ra0 s.ra1) total))

abbrev counted : Cpu → ℕ → Cpu
counted s k = flags long false k (one_moved s k)

bytes_again :
    (s : Cpu) (k : ℕ) {P : Cpu → Type 0}
    → IsBytes s.mem
    → Fits 1 s
    → s.rd2 ≡ suc k
    → 0 < k
    → suc k < 2 ^ 32
    → Returns memcpy_code 36 (counted s k) P
    → Returns memcpy_code 36 s P
unfolding run
bytes_again s k bytes fits e pos small (f, t, r, p) =
    let fit = bytes s.ra1 in (suc (suc (suc f)), t, ground arith, p)

bytes_stop :
    (s : Cpu) {P : Cpu → Type 0}
    → IsBytes s.mem
    → Fits 1 s
    → s.rd2 ≡ 1
    → P (counted s 0)
    → Returns memcpy_code 36 s P
unfolding run
bytes_stop s bytes fits e p = let fit = bytes s.ra1 in (5, counted s 0, ground arith, p)

-- The byte loop of large areas.
pub bytes_loop :
    (k : ℕ) (s : Cpu)
    → IsBytes s.mem
    → Upwards s.ra0 s.ra1 (suc k)
    → Fits (suc k) s
    → s.rd2 ≡ suc k
    → suc k < 2 ^ 32
    → Returns memcpy_code 36 s (Copies (suc k) s)
bytes_loop zero s bytes up fits e small =
    let start = copied-zero (update s.mem s.ra0 (s.mem s.ra1)) (s.ra0 + 1) (s.ra1 + 1) in
    bytes_stop s bytes fits e (refl, sym start ∙ copied-suc s.mem s.ra0 s.ra1 0 up)
bytes_loop (suc k) s bytes up fits e small =
    let bytes' = IsBytes-update s.mem s.ra0 (s.mem s.ra1) bytes (bytes s.ra1) in
    let (f, t, r, (p, q)) =
      bytes_loop k (counted s (suc k)) bytes' (omega arith) (omega arith) refl (omega arith) in
    bytes_again s (suc k) bytes (omega arith) e (omega arith) small
      (f, t, r, (p, q ∙ copied-suc s.mem s.ra0 s.ra1 (suc k) up))
