-- ===== src/StringAsm/Memcpy/Entry.antt =====
-- The entry of `memcpy`: small areas, the first byte, and the choice of a loop.
use amiga_dev.Common.{
  ℕ, suc, ◌+◌, ◌-◌, ◌*◌, ◌/◌, ◌%◌, ◌^◌, ◌≤◌, ◌<◌, ◌≡◌, ◌≢◌, arith, true, false, ltb, ◌==◌,
  Bool-cases, inl, inr, ◌∙◌, refl, ap, ==→eq, ltb→lt, one-bit_and, bit_and-one, bit_and-three,
}
use amiga_dev.Machine.{Cpu, flags, byte, long, minus}
use amiga_dev.Machine.Run.{run, Returns}
use amiga_dev.StringAsm.{memcpy_code}
use amiga_dev.StringAsm.Strings.{IsBytes, Upwards, copied, copied-suc}
use amiga_dev.StringAsm.Copies.{IsBytes-update}
use amiga_dev.StringAsm.Memcpy.{Copies, Fits, one_moved, tail}
use amiga_dev.StringAsm.Memcpy.Loops.{longs, bytes_loop}

-- The test of the source address, in front of the branch on it.
abbrev tested : Cpu → Cpu
tested s = flags byte false (s.ra1 % 2) (record s { rd1 = s.ra1 / 2 ^ 8 * 2 ^ 8 + s.ra1 % 2 })

test_source :
    (s : Cpu) {P : Cpu → Type 0}
    → s.ra1 < 2 ^ 32
    → Returns memcpy_code 26 (tested s) P
    → Returns memcpy_code 20 s P
unfolding run
test_source s fits (f, t, r, p) =
    let bit = one-bit_and (s.ra1 % 2 ^ 8) in (suc (suc f), t, ground (arith, bit), p)

-- Both addresses even: `d2` becomes the bytes in longwords and `d1` the bytes left over.
abbrev divided : Cpu → Cpu
divided s =
    flags long (ltb s.rd2 (s.rd2 % 4)) (s.rd2 - s.rd2 % 4)
      (record s { rd1 = s.rd2 % 4; rd2 = s.rd2 - s.rd2 % 4 })

divide :
    (s : Cpu) {P : Cpu → Type 0}
    → s.z ≡ true
    → s.rd2 < 2 ^ 32
    → Returns memcpy_code 50 (divided s) P
    → Returns memcpy_code 26 s P
unfolding run
divide s zf small (f, t, r, p) =
    let bits = bit_and-three s.rd2 in (suc (suc (suc (suc f))), t, ground (arith, bits), p)

abbrev compared : Cpu → ℕ → Cpu
compared s k = flags long (ltb s.rd2 k) (minus long s.rd2 k) s

odd_small :
    (s : Cpu) {P : Cpu → Type 0}
    → s.z ≡ false
    → s.rd2 < 2 ^ 16
    → Returns memcpy_code 58 (compared s 0x10000) P
    → Returns memcpy_code 26 s P
unfolding run
odd_small s zf small (f, t, r, p) =
    let below : ltb s.rd2 0x10000 ≡ true = ground arith in (suc (suc (suc f)), t, ground arith, p)

odd_large :
    (s : Cpu) {P : Cpu → Type 0}
    → s.z ≡ false
    → 2 ^ 16 ≤ s.rd2
    → s.rd2 < 2 ^ 32
    → Returns memcpy_code 36 (compared s 0x10000) P
    → Returns memcpy_code 26 s P
unfolding run
odd_large s zf large small (f, t, r, p) =
    let below : ltb s.rd2 0x10000 ≡ false = ground arith in (suc (suc (suc f)), t, ground arith, p)

-- From the test of the source on, with an even destination and at least a longword to copy.
from_even :
    (n : ℕ) (s : Cpu)
    → IsBytes s.mem
    → Upwards s.ra0 s.ra1 n
    → Fits n s
    → s.ra0 % 2 ≡ 0
    → s.rd2 ≡ n
    → 4 ≤ n
    → n < 2 ^ 32
    → Returns memcpy_code 20 s (Copies n s)
from_even n s bytes up fits even e large small =
    test_source s (omega arith) (elim (Bool-cases (s.ra1 % 2 == 0)) [
      | inl even' ↦
          let s' = divided (tested s) in
          divide (tested s) even' (omega arith) (
            longs (n / 4 - 1) (n % 4) n s' (omega arith) bytes up fits (even, ==→eq _ _ even')
              (omega arith) (omega arith) (omega arith))
      | inr odd ↦ elim (Bool-cases (ltb n 0x10000)) [
        | inl below ↦
            let lt = ltb→lt n 0x10000 below in
            odd_small (tested s) odd (omega arith)
              (tail n (compared (tested s) 0x10000) bytes up fits e lt)
        | inr above ↦
            let le : 0x10000 ≤ n = ground arith in
            let one : suc (n - 1) ≡ n = omega arith in
            let s' = compared (tested s) 0x10000 in
            odd_large (tested s) odd (omega arith) (omega arith) (
              rw (← one)
                (bytes_loop (n - 1) s' bytes (rw one up) (rw one fits) (omega arith) (omega arith)))
      ]
    ])

abbrev entered : Cpu → Cpu
entered s = flags long false s.ra0 (record s { rd0 = s.ra0 })

enter_small :
    (s : Cpu) {P : Cpu → Type 0}
    → s.ra0 < 2 ^ 32
    → s.rd2 < 16
    → Returns memcpy_code 58 (compared (entered s) 16) P
    → Returns memcpy_code 0 s P
unfolding run
enter_small s fits small (f, t, r, p) =
    let below : ltb s.rd2 16 ≡ true = ground arith in (suc (suc (suc f)), t, ground arith, p)

abbrev low_bit : Cpu → Cpu
low_bit s = flags byte false (s.ra0 % 2) (record (entered s) { rd1 = s.ra0 % 2 })

enter_large :
    (s : Cpu) {P : Cpu → Type 0}
    → s.ra0 < 2 ^ 32
    → 16 ≤ s.rd2
    → s.rd2 < 2 ^ 32
    → Returns memcpy_code 14 (low_bit s) P
    → Returns memcpy_code 0 s P
unfolding run
enter_large s fits large small (f, t, r, p) =
    let above : ltb s.rd2 16 ≡ false = ground arith in
    let bit = bit_and-one (s.ra0 % 2 ^ 8) in
    (suc (suc (suc (suc (suc f)))), t, ground (arith, bit), p)

is_even :
    (s : Cpu) {P : Cpu → Type 0}
    → s.z ≡ true
    → Returns memcpy_code 20 s P
    → Returns memcpy_code 14 s P
unfolding run
is_even s zf (f, t, r, p) = (suc f, t, ground arith, p)

is_odd :
    (s : Cpu) (k : ℕ) {P : Cpu → Type 0}
    → IsBytes s.mem
    → Fits 1 s
    → s.z ≡ false
    → s.rd2 ≡ suc k
    → suc k < 2 ^ 32
    → Returns memcpy_code 20 (flags long false k (one_moved s k)) P
    → Returns memcpy_code 14 s P
unfolding run
is_odd s k bytes fits zf e small (f, t, r, p) =
    let fit = bytes s.ra1 in (suc (suc (suc f)), t, ground arith, p)

-- For every count and every alignment of the two addresses, `memcpy` returns with no address
-- error, with the destination as its result and exactly the `n` bytes copied, if the areas do not
-- overlap or the destination starts at or below the source.
pub memcpy-copied :
    (n : ℕ) (s : Cpu)
    → IsBytes s.mem
    → Upwards s.ra0 s.ra1 n
    → Fits n s
    → s.rd2 ≡ n
    → Returns memcpy_code 0 s (λ t. (t.rd0 ≡ s.ra0) × (t.mem ≡ copied s.mem s.ra0 s.ra1 n))
memcpy-copied n s bytes up fits e = elim (Bool-cases (ltb n 16)) [
  | inl small ↦
      let lt = ltb→lt n 16 small in
      enter_small s (omega arith) (omega arith)
        (tail n (compared (entered s) 16) bytes up fits e (omega arith))
  | inr large ↦
      let le : 16 ≤ n = ground arith in
      enter_large s (omega arith) (omega arith) (omega arith) (elim (Bool-cases (s.ra0 % 2 == 0)) [
        | inl even ↦
            is_even (low_bit s) even
              (from_even n (low_bit s) bytes up fits (==→eq _ _ even) e (omega arith) (omega arith))
        | inr odd ↦
            let k = n - 1 in
            let u = flags long false k (one_moved (low_bit s) k) in
            let bytes' = IsBytes-update s.mem s.ra0 (s.mem s.ra1) bytes (bytes s.ra1) in
            let uneven : s.ra0 % 2 ≢ 0 = ground arith in
            let (f, t, r, (p, q)) =
              from_even k u bytes' (omega arith) (omega arith) (omega arith) refl (omega arith)
                (omega arith) in
            let one : suc k ≡ n = omega arith in
            let all = copied-suc s.mem s.ra0 s.ra1 k (omega arith) in
            is_odd (low_bit s) k bytes (omega arith) odd (omega arith) (omega arith)
              (f, t, r, (p, q ∙ all ∙ ap (copied s.mem s.ra0 s.ra1) one))
      ])
]
