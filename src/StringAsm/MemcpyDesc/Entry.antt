-- ===== src/StringAsm/MemcpyDesc/Entry.antt =====
-- The entry of `memcpy_desc`: small areas, the first byte, and the choice of a loop.
use amiga_dev.Common.{
  ℕ, suc, ◌+◌, ◌-◌, ◌*◌, ◌/◌, ◌%◌, ◌^◌, ◌≤◌, ◌<◌, ◌≡◌, ◌≢◌, arith, true, false, ltb, ◌==◌,
  Bool-cases, inl, inr, ◌∙◌, refl, ==→eq, ltb→lt, one-bit_and, bit_and-three,
}
use amiga_dev.Machine.{Cpu, flags, byte, long, minus}
use amiga_dev.Machine.Run.{run, Returns}
use amiga_dev.StringAsm.{memcpy_desc_code}
use amiga_dev.StringAsm.Strings.{IsBytes, copied}
use amiga_dev.StringAsm.Copies.{IsBytes-update, copied-last}
use amiga_dev.StringAsm.MemcpyDesc.{Copies, Ends, one_moved, tail}
use amiga_dev.StringAsm.MemcpyDesc.Loops.{longs, bytes_loop}

-- The test of the source address, in front of the branch on it.
abbrev tested : Cpu → Cpu
tested s = flags byte false (s.ra1 % 2) (record s { rd0 = s.ra1 / 2 ^ 8 * 2 ^ 8 + s.ra1 % 2 })

test_source :
    (s : Cpu) {P : Cpu → Type 0}
    → s.ra1 < 2 ^ 32
    → s.rd1 ≡ 1
    → Returns memcpy_desc_code 24 (tested s) P
    → Returns memcpy_desc_code 20 s P
unfolding run
test_source s fits one (f, t, r, p) =
    let bit = one-bit_and (s.ra1 % 2 ^ 8) in (suc (suc f), t, ground (arith, bit), p)

-- Both addresses even: `d2` becomes the bytes in longwords and `d1` the bytes left over.
abbrev divided : Cpu → Cpu
divided s =
    flags long (ltb s.rd2 (s.rd2 % 4)) (s.rd2 - s.rd2 % 4)
      (record s { rd1 = s.rd2 % 4; rd2 = s.rd2 - s.rd2 % 4 })

divide :
    (s : Cpu) {P : Cpu → Type 0}
    → s.z ≡ true
    → s.rd2 < 2 ^ 32
    → Returns memcpy_desc_code 48 (divided s) P
    → Returns memcpy_desc_code 24 s P
unfolding run
divide s zf small (f, t, r, p) =
    let bits = bit_and-three s.rd2 in (suc (suc (suc (suc f))), t, ground (arith, bits), p)

abbrev compared : Cpu → ℕ → Cpu
compared s k = flags long (ltb s.rd2 k) (minus long s.rd2 k) s

odd_small :
    (s : Cpu) {P : Cpu → Type 0}
    → s.z ≡ false
    → s.rd2 < 2 ^ 16
    → Returns memcpy_desc_code 56 (compared s 0x10000) P
    → Returns memcpy_desc_code 24 s P
unfolding run
odd_small s zf small (f, t, r, p) =
    let below : ltb s.rd2 0x10000 ≡ true = ground arith in (suc (suc (suc f)), t, ground arith, p)

odd_large :
    (s : Cpu) {P : Cpu → Type 0}
    → s.z ≡ false
    → 2 ^ 16 ≤ s.rd2
    → s.rd2 < 2 ^ 32
    → Returns memcpy_desc_code 34 (compared s 0x10000) P
    → Returns memcpy_desc_code 24 s P
unfolding run
odd_large s zf large small (f, t, r, p) =
    let below : ltb s.rd2 0x10000 ≡ false = ground arith in (suc (suc (suc f)), t, ground arith, p)

-- From the test of the source on, with an even destination and at least a longword to copy.
from_even :
    (n d a : ℕ) (s : Cpu)
    → IsBytes s.mem
    → Ends d a n s
    → s.ra0 % 2 ≡ 0
    → s.rd1 ≡ 1
    → s.rd2 ≡ n
    → 4 ≤ n
    → n < 2 ^ 32
    → Returns memcpy_desc_code 20 s (Copies d a n s)
from_even n d a s bytes ends even one e large small =
    test_source s (omega arith) one (elim (Bool-cases (s.ra1 % 2 == 0)) [
      | inl even' ↦
          let s' = divided (tested s) in
          divide (tested s) even' (omega arith) (
            longs (n / 4 - 1) (n % 4) n d a s' (omega arith) bytes ends (even, ==→eq _ _ even')
              (omega arith) (omega arith) (omega arith))
      | inr odd ↦ elim (Bool-cases (ltb n 0x10000)) [
        | inl below ↦
            let lt = ltb→lt n 0x10000 below in
            odd_small (tested s) odd (omega arith)
              (tail n d a (compared (tested s) 0x10000) bytes ends e lt)
        | inr above ↦
            let le : 0x10000 ≤ n = ground arith in
            let one : suc (n - 1) ≡ n = omega arith in
            let s' = compared (tested s) 0x10000 in
            odd_large (tested s) odd (omega arith) (omega arith) (
              rw (← one)
                (bytes_loop (n - 1) d a s' bytes (omega arith) (omega arith) (omega arith)))
      ]
    ])

enter_small :
    (s : Cpu) {P : Cpu → Type 0}
    → s.rd2 < 16
    → Returns memcpy_desc_code 56 (compared s 16) P
    → Returns memcpy_desc_code 0 s P
unfolding run
enter_small s small (f, t, r, p) =
    let below : ltb s.rd2 16 ≡ true = ground arith in (suc (suc f), t, ground arith, p)

abbrev low_bit : Cpu → Cpu
low_bit s =
    flags byte false (s.ra0 % 2) (record s { rd1 = 1; rd0 = s.ra0 / 2 ^ 8 * 2 ^ 8 + s.ra0 % 2 })

enter_large :
    (s : Cpu) {P : Cpu → Type 0}
    → s.ra0 < 2 ^ 32
    → 16 ≤ s.rd2
    → s.rd2 < 2 ^ 32
    → Returns memcpy_desc_code 14 (low_bit s) P
    → Returns memcpy_desc_code 0 s P
unfolding run
enter_large s fits large small (f, t, r, p) =
    let above : ltb s.rd2 16 ≡ false = ground arith in
    let bit = one-bit_and (s.ra0 % 2 ^ 8) in
    (suc (suc (suc (suc (suc f)))), t, ground (arith, bit), p)

is_even :
    (s : Cpu) {P : Cpu → Type 0}
    → s.z ≡ true
    → Returns memcpy_desc_code 20 s P
    → Returns memcpy_desc_code 14 s P
unfolding run
is_even s zf (f, t, r, p) = (suc f, t, ground arith, p)

is_odd :
    (s : Cpu) (k : ℕ) {P : Cpu → Type 0}
    → IsBytes s.mem
    → (0 < s.ra0) × (0 < s.ra1) × (s.ra0 < 2 ^ 32) × (s.ra1 < 2 ^ 32)
    → s.z ≡ false
    → s.rd2 ≡ suc k
    → suc k < 2 ^ 32
    → Returns memcpy_desc_code 20 (flags long false k (one_moved s k)) P
    → Returns memcpy_desc_code 14 s P
unfolding run
is_odd s k bytes fits zf e small (f, t, r, p) =
    let fit = bytes (s.ra1 - 1) in (suc (suc (suc f)), t, ground arith, p)

-- An odd end of the destination: one byte, and then as from an even one.
from_odd :
    (k d a : ℕ) (s : Cpu)
    → IsBytes s.mem
    → Ends d a (suc k) s
    → s.rd2 ≡ suc k
    → 15 ≤ k
    → s.ra0 % 2 ≢ 0
    → Returns memcpy_desc_code 14 (low_bit s) (Copies d a (suc k) s)
from_odd k d a s bytes ends e large uneven =
    let u = flags long false k (one_moved (low_bit s) k) in
    let last = s.mem (s.ra1 - 1) in
    let bytes' = IsBytes-update s.mem (s.ra0 - 1) last bytes (bytes (s.ra1 - 1)) in
    let (f, t, r, (p, q)) =
      from_even k d a u bytes' (omega arith) (omega arith) refl refl (omega arith) (omega arith) in
    let last0 : s.ra0 - 1 ≡ d + k = omega arith in
    let last1 : s.ra1 - 1 ≡ a + k = omega arith in
    let all = copied-last s.mem d a k (omega arith) in
    is_odd (low_bit s) k bytes (omega arith) (ground arith) e (omega arith)
      (f, t, r, (p, q ∙ rw (last0, last1) all))

-- For every count and every alignment, `memcpy_desc`, given the ends of two areas, returns with no
-- address error, with the start of the destination as its result and exactly the `n` bytes copied,
-- if the areas do not overlap or the destination starts at or above the source.
pub memcpy_desc-copied :
    (n d a : ℕ) (s : Cpu)
    → IsBytes s.mem
    → Ends d a n s
    → s.rd2 ≡ n
    → Returns memcpy_desc_code 0 s (λ t. (t.rd0 ≡ d) × (t.mem ≡ copied s.mem d a n))
memcpy_desc-copied n d a s bytes ends e = elim (Bool-cases (ltb n 16)) [
  | inl small ↦
      let lt = ltb→lt n 16 small in
      enter_small s (omega arith) (tail n d a (compared s 16) bytes ends e (omega arith))
  | inr large ↦
      let le : 16 ≤ n = ground arith in
      enter_large s (omega arith) (omega arith) (omega arith) (elim (Bool-cases (s.ra0 % 2 == 0)) [
        | inl even ↦ is_even (low_bit s) even (
            from_even n d a (low_bit s) bytes ends (==→eq _ _ even) refl e (omega arith)
              (omega arith))
        | inr odd ↦
            let uneven : s.ra0 % 2 ≢ 0 = ground arith in
            let one : suc (n - 1) ≡ n = omega arith in
            rw (← one)
              (from_odd (n - 1) d a s bytes (omega arith) (omega arith) (omega arith) uneven)
      ])
]
