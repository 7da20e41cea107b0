-- ===== src/StringAsm/MemcpyDesc/Loops.antt =====
-- The two long loops of `memcpy_desc`.
use amiga_dev.Common.{
  ℕ, zero, suc, ◌+◌, ◌-◌, ◌*◌, ◌%◌, ◌^◌, ◌≤◌, ◌<◌, ◌≡◌, arith, true, false, ◌==◌, ◌∙◌, sym, refl,
  ap,
}
use amiga_dev.Machine.{Cpu, flags, word, long, update}
use amiga_dev.Machine.Run.{run, Returns, final}
use amiga_dev.StringAsm.{memcpy_desc_code}
use amiga_dev.StringAsm.Strings.{IsBytes, copied, copied-zero}
use amiga_dev.StringAsm.Copies.{
  IsBytes-update, IsBytes-four, copied-last, four, longword, four-copied_append_back,
}
use amiga_dev.StringAsm.MemcpyDesc.{Copies, Ends, one_moved, tail}

abbrev four_moved : Cpu → ℕ → Cpu
four_moved s k = flags long false k (record s {
  rd2 = k;
  ra0 = s.ra0 - 4;
  ra1 = s.ra1 - 4;
  mem = four s.mem (s.ra0 - 4) (longword s.mem (s.ra1 - 4));
})

abbrev pub Even : Cpu → Type 0
Even s = (s.ra0 % 2 ≡ 0) × (s.ra1 % 2 ≡ 0)

-- Four bytes at least lie below the two addresses.
abbrev Room : Cpu → Type 0
Room s = (4 ≤ s.ra0) × (4 ≤ s.ra1) × (s.ra0 < 2 ^ 32) × (s.ra1 < 2 ^ 32)

longs_again :
    (s : Cpu) (k : ℕ) {P : Cpu → Type 0}
    → Even s
    → Room s
    → s.rd2 ≡ k + 4
    → 0 < k
    → k + 4 < 2 ^ 32
    → Returns memcpy_desc_code 48 (four_moved s k) P
    → Returns memcpy_desc_code 48 s P
unfolding run
longs_again s k (even, even') (lo, lo', hi, hi') e pos small (f, t, r, p) =
    let align : ((s.ra0 - 4) % 2 == 0) ≡ true = ground arith in
    let align' : ((s.ra1 - 4) % 2 == 0) ≡ true = ground arith in
    (suc (suc (suc f)), t, ground arith, p)

longs_end :
    (s : Cpu) {P : Cpu → Type 0}
    → Even s
    → Room s
    → s.rd2 ≡ 4
    → s.rd1 < 4
    → Returns memcpy_desc_code 56
        (flags word false s.rd1 (record (four_moved s 0) { rd2 = s.rd1 }))
        P
    → Returns memcpy_desc_code 48 s P
unfolding run
longs_end s (even, even') (lo, lo', hi, hi') e small (f, t, r, p) =
    let align : ((s.ra0 - 4) % 2 == 0) ≡ true = ground arith in
    let align' : ((s.ra1 - 4) % 2 == 0) ≡ true = ground arith in
    (suc (suc (suc (suc f))), t, ground arith, p)

-- The first longword of a copy of `i + 4` bytes.
first_four :
    (i d a : ℕ) (s : Cpu)
    → IsBytes s.mem
    → Ends d a (i + 4) s
    → copied (four s.mem (s.ra0 - 4) (longword s.mem (s.ra1 - 4))) d a i ≡ copied s.mem d a (i + 4)
first_four i d a s bytes (e0, e1, fits, fits', down) =
    let last0 : s.ra0 - 4 ≡ d + i = omega arith in
    let last1 : s.ra1 - 4 ≡ a + i = omega arith in
    rw (last0, last1) (four-copied_append_back s.mem d a i bytes down)

-- From the longword loop on, with `d2` the bytes in longwords and `d1` the bytes left over.
pub longs :
    (q r n d a : ℕ) (s : Cpu)
    → n ≡ 4 * q + r + 4
    → IsBytes s.mem
    → Ends d a n s
    → Even s
    → s.rd2 ≡ 4 * q + 4
    → s.rd1 ≡ r
    → r < 4
    → Returns memcpy_desc_code 48 s (Copies d a n s)
longs zero r n d a s size bytes ends even e e' small =
    let s' = flags word false s.rd1 (record (four_moved s 0) { rd2 = s.rd1 }) in
    let m' = IsBytes-four s.mem (s.ra0 - 4) (s.ra1 - 4) bytes in
    let (f, t, run, (p, q)) = tail r d a s' m' (omega arith) e' (omega arith) in
    let all = first_four r d a s bytes (omega arith) in
    let total : r + 4 ≡ n = omega arith in
    longs_end s even (omega arith) (omega arith) (omega arith)
      (f, t, run, (p, q ∙ all ∙ ap (copied s.mem d a) total))
longs (suc q) r n d a s size bytes ends even e e' small =
    let k = 4 * q + 4 in
    let m' = IsBytes-four s.mem (s.ra0 - 4) (s.ra1 - 4) bytes in
    let (f, t, run, (p, w)) =
      longs q r (4 * q + r + 4) d a (four_moved s k) refl m' (omega arith) (omega arith) refl e'
        small in
    let all = first_four (4 * q + r + 4) d a s bytes (omega arith) in
    let total : 4 * q + r + 4 + 4 ≡ n = omega arith in
    longs_again s k even (omega arith) (omega arith) (omega arith) (omega arith)
      (f, t, run, (p, w ∙ all ∙ ap (copied s.mem d a) total))

abbrev counted : Cpu → ℕ → Cpu
counted s k = flags long false k (one_moved s k)

bytes_again :
    (s : Cpu) (k : ℕ) {P : Cpu → Type 0}
    → IsBytes s.mem
    → (0 < s.ra0) × (0 < s.ra1) × (s.ra0 < 2 ^ 32) × (s.ra1 < 2 ^ 32)
    → s.rd2 ≡ suc k
    → 0 < k
    → suc k < 2 ^ 32
    → Returns memcpy_desc_code 34 (counted s k) P
    → Returns memcpy_desc_code 34 s P
unfolding run
bytes_again s k bytes fits e pos small (f, t, r, p) =
    let fit = bytes (s.ra1 - 1) in (suc (suc (suc f)), t, ground arith, p)

bytes_stop :
    (s : Cpu)
    → IsBytes s.mem
    → (0 < s.ra0) × (0 < s.ra1) × (s.ra0 < 2 ^ 32) × (s.ra1 < 2 ^ 32)
    → s.rd2 ≡ 1
    → Returns memcpy_desc_code 34 s
        (λ t. (t.rd0 ≡ s.ra0 - 1) × (t.mem ≡ update s.mem (s.ra0 - 1) (s.mem (s.ra1 - 1))))
unfolding run
bytes_stop s bytes fits e =
    let fit = bytes (s.ra1 - 1) in
    let t = final s (run memcpy_desc_code 6 34 s) in
    (6, t, ground arith, (ground arith, ground arith))

-- The byte loop of large areas.
pub bytes_loop :
    (k d a : ℕ) (s : Cpu)
    → IsBytes s.mem
    → Ends d a (suc k) s
    → s.rd2 ≡ suc k
    → suc k < 2 ^ 32
    → Returns memcpy_desc_code 34 s (Copies d a (suc k) s)
bytes_loop zero d a s bytes ends e small =
    let (f, t, r, (p, q)) = bytes_stop s bytes (omega arith) e in
    let last0 : s.ra0 - 1 ≡ d + 0 = omega arith in
    let last1 : s.ra1 - 1 ≡ a + 0 = omega arith in
    let start = copied-zero (update s.mem (s.ra0 - 1) (s.mem (s.ra1 - 1))) d a in
    let all = copied-last s.mem d a 0 (omega arith) in
    (f, t, r, (omega arith, q ∙ sym start ∙ rw (last0, last1) all))
bytes_loop (suc k) d a s bytes ends e small =
    let bytes' = IsBytes-update s.mem (s.ra0 - 1) (s.mem (s.ra1 - 1)) bytes (bytes (s.ra1 - 1)) in
    let (f, t, r, (p, q)) =
      bytes_loop k d a (counted s (suc k)) bytes' (omega arith) refl (omega arith) in
    let last0 : s.ra0 - 1 ≡ d + suc k = omega arith in
    let last1 : s.ra1 - 1 ≡ a + suc k = omega arith in
    let all = copied-last s.mem d a (suc k) (omega arith) in
    bytes_again s (suc k) bytes (omega arith) e (omega arith) small
      (f, t, r, (p, q ∙ rw (last0, last1) all))
