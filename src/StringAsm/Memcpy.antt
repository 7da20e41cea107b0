-- ===== src/StringAsm/Memcpy.antt =====
-- `memcpy` for the 68000: bytes up to an even address, longwords, and the bytes that are left.
pub mod Loops
pub mod Entry
use amiga_dev.Common.{
  ℕ, zero, suc, ◌+◌, ◌-◌, ◌*◌, ◌/◌, ◌%◌, ◌^◌, ◌≤◌, ◌<◌, ◌≡◌, ◌⊎◌, arith, true, false, ltb, leb,
  ◌==◌, if◌then◌else◌, Bool-cases, inl, inr, ◌∙◌, sym, refl, one-bit_and, bit_and-one,
  bit_and-three, ap,
}
use amiga_dev.Machine.{Cpu, Memory, flags, byte, word, long, minus, update, wrap}
use amiga_dev.Machine.Run.{run, Returns, final}
use amiga_dev.StringAsm.{memcpy_code}
use amiga_dev.StringAsm.Strings.{IsBytes, Upwards, copied, copied-suc, copied-zero}
use amiga_dev.StringAsm.Copies.{IsBytes-update}

-- What a block leaves: `n` bytes copied, the result register as it was.
abbrev pub Copies : ℕ → Cpu → Cpu → Type 0
Copies n s t = (t.rd0 ≡ s.rd0) × (t.mem ≡ copied s.mem s.ra0 s.ra1 n)

-- Both areas end below the end of memory.
abbrev pub Fits : ℕ → Cpu → Type 0
Fits n s = (s.ra0 + n < 2 ^ 32) × (s.ra1 + n < 2 ^ 32)

abbrev pub one_moved : Cpu → ℕ → Cpu
one_moved s k =
    flags byte false (s.mem s.ra1) (record s {
      rd2 = k;
      ra0 = s.ra0 + 1;
      ra1 = s.ra1 + 1;
      mem = update s.mem s.ra0 (s.mem s.ra1);
    })

-- The loop of `dbf`, over one byte more than the low word of `d2`.
dbf_again :
    (s : Cpu) (k : ℕ) {P : Cpu → Type 0}
    → IsBytes s.mem
    → Fits 1 s
    → s.rd2 ≡ suc k
    → suc k < 2 ^ 16
    → Returns memcpy_code 62 (one_moved s k) P
    → Returns memcpy_code 62 s P
unfolding run
dbf_again s k bytes fits e small (f, t, r, p) =
    let fit = bytes s.ra1 in (suc (suc f), t, ground arith, p)

dbf_stops :
    (s : Cpu)
    → IsBytes s.mem
    → s.rd2 ≡ 0
    → Returns memcpy_code 62 s (λ t. (t.rd0 ≡ s.rd0) × (t.mem ≡ update s.mem s.ra0 (s.mem s.ra1)))
unfolding run
dbf_stops s bytes e =
    let fit = bytes s.ra1 in
    let t = final s (run memcpy_code 3 62 s) in (3, t, ground arith, (ground arith, ground arith))

dbf_loop :
    (k : ℕ) (s : Cpu)
    → IsBytes s.mem
    → Upwards s.ra0 s.ra1 (suc k)
    → Fits (suc k) s
    → s.rd2 ≡ k
    → k < 2 ^ 16
    → Returns memcpy_code 62 s (Copies (suc k) s)
dbf_loop zero s bytes up fits e small =
    let (f, t, r, (p, q)) = dbf_stops s bytes e in
    let start = copied-zero (update s.mem s.ra0 (s.mem s.ra1)) (s.ra0 + 1) (s.ra1 + 1) in
    (f, t, r, (p, q ∙ sym start ∙ copied-suc s.mem s.ra0 s.ra1 0 up))
dbf_loop (suc k) s bytes up fits e small =
    let bytes' = IsBytes-update s.mem s.ra0 (s.mem s.ra1) bytes (bytes s.ra1) in
    let (f, t, r, (p, q)) =
      dbf_loop k (one_moved s k) bytes' (omega arith) (omega arith) refl (omega arith) in
    dbf_again s k bytes (omega arith) e small
      (f, t, r, (p, q ∙ copied-suc s.mem s.ra0 s.ra1 (suc k) up))

-- The tail: the low word of `d2` counts the bytes.
tail_some :
    (s : Cpu) (k : ℕ) {P : Cpu → Type 0}
    → s.rd2 ≡ suc k
    → suc k < 2 ^ 16
    → Returns memcpy_code 62 (flags word false k (record s { rd2 = k })) P
    → Returns memcpy_code 58 s P
unfolding run
tail_some s k e small (f, t, r, p) = (suc (suc f), t, ground arith, p)

tail_none :
    (s : Cpu) → s.rd2 ≡ 0 → Returns memcpy_code 58 s (λ t. (t.rd0 ≡ s.rd0) × (t.mem ≡ s.mem))
unfolding run
tail_none s e =
    let t = final s (run memcpy_code 3 58 s) in (3, t, ground arith, (ground arith, ground arith))

pub tail :
    (n : ℕ) (s : Cpu)
    → IsBytes s.mem
    → Upwards s.ra0 s.ra1 n
    → Fits n s
    → s.rd2 ≡ n
    → n < 2 ^ 16
    → Returns memcpy_code 58 s (Copies n s)
tail zero s bytes up fits e small =
    let (f, t, r, (p, q)) = tail_none s e in (f, t, r, (p, q ∙ sym (copied-zero s.mem s.ra0 s.ra1)))
tail (suc k) s bytes up fits e small =
    tail_some s k e small
      (dbf_loop k (flags word false k (record s { rd2 = k })) bytes up fits refl (omega arith))
