-- ===== src/StringAsm/For68020/Memcpy/Entry.antt =====
-- The entry of `memcpy` for the 68020: few bytes, an odd destination, and a word.
use amiga_dev.Common.{
  ℕ, suc, ◌+◌, ◌-◌, ◌/◌, ◌%◌, ◌^◌, ◌≤◌, ◌<◌, ◌≡◌, arith, true, false, ltb, ◌==◌, Bool-cases, inl,
  inr, ◌∙◌, refl, ap, ltb→lt,
}
use amiga_dev.Machine.{Cpu, flags, long, update}
use amiga_dev.Machine.Run.{run, Returns}
use amiga_dev.StringAsm.Strings.{IsBytes, Upwards, copied, copied-suc}
use amiga_dev.StringAsm.Copies.{IsBytes-update}
use amiga_dev.StringAsm.Memcpy.{Copies, Fits, one_moved}
use amiga_dev.StringAsm.For68020.{memcpy_020_code}
use amiga_dev.StringAsm.For68020.Words.{two-copied_append, IsBytes-two}
use amiga_dev.StringAsm.For68020.Memcpy.{
  left, set_left, tail, rest, halved, no_word, two_moved, word_more, word_last,
}

-- From the test for a word on, whatever the bit says.
words :
    (n : ℕ) (s : Cpu)
    → IsBytes s.mem
    → Upwards s.ra0 s.ra1 n
    → Fits n s
    → 4 ≤ n
    → s.rd2 ≡ n - 4
    → Returns memcpy_020_code 20 s (Copies n s)
words n s bytes up fits large e = elim (Bool-cases (s.rd1 % 2 == 1)) [
  | inr even ↦ no_word s even (rest n (halved s false) bytes up fits large e)
  | inl odd ↦
      let m' = IsBytes-two s.mem s.ra0 s.ra1 bytes in
      let k = n - 2 in
      let all = two-copied_append s.mem s.ra0 s.ra1 k bytes (omega arith) in
      let total : 2 + k ≡ n = omega arith in
      let h = halved s true in
      elim (Bool-cases (ltb k 4)) [
        | inl few ↦
            let lt = ltb→lt k 4 few in
            let (f, t, r, (p, w)) =
              tail k (two_moved h true (left k)) m' (omega arith) (omega arith) refl lt in
            word_last s k odd (omega arith) (omega arith) lt
              (f, t, r, (p, w ∙ all ∙ ap (copied s.mem s.ra0 s.ra1) total))
        | inr many ↦
            let le : 4 ≤ k = ground arith in
            let (f, t, r, (p, w)) =
              rest k (two_moved h false (k - 4)) m' (omega arith) (omega arith) le refl in
            word_more s (k - 4) odd (omega arith) (omega arith) (omega arith)
              (f, t, r, (p, w ∙ all ∙ ap (copied s.mem s.ra0 s.ra1) total))
      ]
]

abbrev entered : Cpu → Cpu
entered s = record s { rd0 = s.ra0 }

enter_small :
    (s : Cpu) {P : Cpu → Type 0}
    → s.ra0 < 2 ^ 32
    → s.rd2 < 4
    → Returns memcpy_020_code 36 (set_left (entered s) true (left s.rd2)) P
    → Returns memcpy_020_code 0 s P
unfolding run
enter_small s fits small (f, t, r, p) = (suc (suc (suc f)), t, ground arith, p)

abbrev bit_tested : Cpu → Cpu
bit_tested s =
    flags long (s.ra0 % 2 == 1) (s.ra0 / 2)
      (record s { rd0 = s.ra0; rd1 = s.ra0 / 2; rd2 = s.rd2 - 4 })

enter_large :
    (s : Cpu) {P : Cpu → Type 0}
    → s.ra0 < 2 ^ 32
    → 4 ≤ s.rd2
    → s.rd2 < 2 ^ 32
    → Returns memcpy_020_code 10 (bit_tested s) P
    → Returns memcpy_020_code 0 s P
unfolding run
enter_large s fits large small (f, t, r, p) = (suc (suc (suc (suc (suc f)))), t, ground arith, p)

is_even :
    (s : Cpu) {P : Cpu → Type 0}
    → s.c ≡ false
    → Returns memcpy_020_code 20 s P
    → Returns memcpy_020_code 10 s P
unfolding run
is_even s e (f, t, r, p) = (suc f, t, ground arith, p)

-- One byte moved, and `d1` counted up.
abbrev stepped : Cpu → ℕ → Cpu
stepped s k = flags long false (s.rd1 + 1) (record (one_moved s k) { rd1 = s.rd1 + 1 })

odd_more :
    (s : Cpu) (k : ℕ) {P : Cpu → Type 0}
    → IsBytes s.mem
    → Fits 1 s
    → s.c ≡ true
    → s.rd1 < 2 ^ 31
    → s.rd2 ≡ suc k
    → suc k < 2 ^ 32
    → Returns memcpy_020_code 20 (stepped s k) P
    → Returns memcpy_020_code 10 s P
unfolding run
odd_more s k bytes fits e half_fits count small (f, t, r, p) =
    let fit = bytes s.ra1 in (suc (suc (suc (suc (suc f)))), t, ground arith, p)

odd_last :
    (s : Cpu) {P : Cpu → Type 0}
    → IsBytes s.mem
    → Fits 1 s
    → s.c ≡ true
    → s.rd2 ≡ 0
    → Returns memcpy_020_code 36 (set_left (one_moved s s.rd2) true (left 3)) P
    → Returns memcpy_020_code 10 s P
unfolding run
odd_last s bytes fits e count (f, t, r, p) =
    let fit = bytes s.ra1 in (suc (suc (suc (suc f))), t, ground arith, p)

-- At least four bytes, with bit 0 of the destination in the carry.
from_bit :
    (n : ℕ) (s : Cpu)
    → IsBytes s.mem
    → Upwards s.ra0 s.ra1 n
    → Fits n s
    → 4 ≤ n
    → s.rd1 < 2 ^ 31
    → s.rd2 ≡ n - 4
    → Returns memcpy_020_code 10 s (Copies n s)
from_bit n s bytes up fits large half_fits e = elim (Bool-cases s.c) [
  | inr even ↦ is_even s even (words n s bytes up fits large e)
  | inl odd ↦
      let k = n - 1 in
      let m' = IsBytes-update s.mem s.ra0 (s.mem s.ra1) bytes (bytes s.ra1) in
      let one : suc k ≡ n = omega arith in
      let all = copied-suc s.mem s.ra0 s.ra1 k (omega arith) in
      elim (Bool-cases (ltb n 5)) [
        | inl few ↦
            let lt = ltb→lt n 5 few in
            let three : 3 ≡ k = omega arith in
            let (f, t, r, (p, w)) =
              tail 3 (set_left (one_moved s s.rd2) true (left 3)) m' (omega arith) (omega arith)
                refl (omega arith) in
            odd_last s bytes (omega arith) odd (omega arith) (
              f,
              t,
              r,
              (
                p,
                w
                    ∙ ap (copied (update s.mem s.ra0 (s.mem s.ra1)) (s.ra0 + 1) (s.ra1 + 1)) three
                    ∙ all
                    ∙ ap (copied s.mem s.ra0 s.ra1) one,
              ),
            )
        | inr many ↦
            let le : 5 ≤ n = ground arith in
            let (f, t, r, (p, w)) =
              words k (stepped s (k - 4)) m' (omega arith) (omega arith) (omega arith) refl in
            odd_more s (k - 4) bytes (omega arith) odd half_fits (omega arith) (omega arith)
              (f, t, r, (p, w ∙ all ∙ ap (copied s.mem s.ra0 s.ra1) one))
      ]
]

-- On the 68020 too, for every count and every alignment, `memcpy` returns, with the destination as
-- its result and exactly the `n` bytes copied, if the areas do not overlap or the destination
-- starts at or below the source.
pub memcpy_020-copied :
    (n : ℕ) (s : Cpu)
    → IsBytes s.mem
    → Upwards s.ra0 s.ra1 n
    → Fits n s
    → s.rd2 ≡ n
    → Returns memcpy_020_code 0 s (λ t. (t.rd0 ≡ s.ra0) × (t.mem ≡ copied s.mem s.ra0 s.ra1 n))
memcpy_020-copied n s bytes up fits e = elim (Bool-cases (ltb n 4)) [
  | inl small ↦
      let lt = ltb→lt n 4 small in
      enter_small s (omega arith) (omega arith)
        (tail n (set_left (entered s) true (left s.rd2)) bytes up fits (ap left e) lt)
  | inr large ↦
      let le : 4 ≤ n = ground arith in
      enter_large s (omega arith) (omega arith) (omega arith)
        (from_bit n (bit_tested s) bytes up fits le (omega arith) (omega arith))
]
