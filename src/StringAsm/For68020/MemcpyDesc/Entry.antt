-- ===== src/StringAsm/For68020/MemcpyDesc/Entry.antt =====
-- The entry of `memcpy_desc` for the 68020: few bytes, an odd end, and a word.
use amiga_dev.Common.{
  ℕ, suc, ◌+◌, ◌-◌, ◌/◌, ◌%◌, ◌^◌, ◌≤◌, ◌<◌, ◌≡◌, arith, true, false, ltb, ◌==◌, Bool-cases, inl,
  inr, ◌∙◌, refl, ap, ltb→lt, Bool,
}
use amiga_dev.Machine.{Cpu, flags, long, update}
use amiga_dev.Machine.Run.{run, Returns}
use amiga_dev.StringAsm.Strings.{IsBytes, copied}
use amiga_dev.StringAsm.Copies.{IsBytes-update, copied-last}
use amiga_dev.StringAsm.MemcpyDesc.{Copies, Ends, one_moved}
use amiga_dev.StringAsm.For68020.{memcpy_desc_020_code}
use amiga_dev.StringAsm.For68020.Words.{two, word_at, two-copied_append_back, IsBytes-two}
use amiga_dev.StringAsm.For68020.Memcpy.{left, set_left}
use amiga_dev.StringAsm.For68020.MemcpyDesc.{Room, tail, rest}

-- The test of bit 1 of the end.
abbrev halved : Cpu → Bool → Cpu
halved s bit = flags long bit (s.rd0 / 2) (record s { rd0 = s.rd0 / 2 })

no_word :
    (s : Cpu) {P : Cpu → Type 0}
    → (s.rd0 % 2 == 1) ≡ false
    → Returns memcpy_desc_020_code 26 (halved s false) P
    → Returns memcpy_desc_020_code 16 s P
unfolding run
no_word s bit (f, t, r, p) = (suc (suc f), t, ground arith, p)

abbrev two_moved : Cpu → Bool → ℕ → Cpu
two_moved s borrow k =
    set_left
      (record s {
        ra0 = s.ra0 - 2;
        ra1 = s.ra1 - 2;
        mem = two s.mem (s.ra0 - 2) (word_at s.mem (s.ra1 - 2));
      })
      borrow k

word_more :
    (s : Cpu) (k : ℕ) {P : Cpu → Type 0}
    → (s.rd0 % 2 == 1) ≡ true
    → Room 2 s
    → s.rd2 ≡ k + 2
    → k + 2 < 2 ^ 32
    → Returns memcpy_desc_020_code 26 (two_moved (halved s true) false k) P
    → Returns memcpy_desc_020_code 16 s P
unfolding run
word_more s k bit (lo, lo', hi, hi') e small (f, t, r, p) =
    (suc (suc (suc (suc (suc f)))), t, ground arith, p)

word_last :
    (s : Cpu) (r : ℕ) {P : Cpu → Type 0}
    → (s.rd0 % 2 == 1) ≡ true
    → Room 2 s
    → s.rd2 + 2 ≡ r
    → r < 4
    → Returns memcpy_desc_020_code 32 (two_moved (halved s true) true (left r)) P
    → Returns memcpy_desc_020_code 16 s P
unfolding run
word_last s r bit (lo, lo', hi, hi') e small (f, t, r', p) =
    (suc (suc (suc (suc (suc f)))), t, ground arith, p)

-- The first word of a copy of `i + 2` bytes.
first_two :
    (i d a : ℕ) (s : Cpu)
    → IsBytes s.mem
    → Ends d a (i + 2) s
    → copied (two s.mem (s.ra0 - 2) (word_at s.mem (s.ra1 - 2))) d a i ≡ copied s.mem d a (i + 2)
first_two i d a s bytes (e0, e1, fits, fits', down) =
    let last0 : s.ra0 - 2 ≡ d + i = omega arith in
    let last1 : s.ra1 - 2 ≡ a + i = omega arith in
    rw (last0, last1) (two-copied_append_back s.mem d a i bytes down)

-- From the test for a word on, whatever the bit says.
words :
    (n d a : ℕ) (s : Cpu)
    → IsBytes s.mem
    → Ends d a n s
    → 4 ≤ n
    → s.rd2 ≡ n - 4
    → Returns memcpy_desc_020_code 16 s (Copies d a n s)
words n d a s bytes ends large e = elim (Bool-cases (s.rd0 % 2 == 1)) [
  | inr even ↦ no_word s even (rest n d a (halved s false) bytes ends large e)
  | inl odd ↦
      let m' = IsBytes-two s.mem (s.ra0 - 2) (s.ra1 - 2) bytes in
      let k = n - 2 in
      let all = first_two k d a s bytes (omega arith) in
      let total : k + 2 ≡ n = omega arith in
      let h = halved s true in
      elim (Bool-cases (ltb k 4)) [
        | inl few ↦
            let lt = ltb→lt k 4 few in
            let (f, t, r, (p, w)) =
              tail k d a (two_moved h true (left k)) m' (omega arith) refl lt in
            word_last s k odd (omega arith) (omega arith) lt
              (f, t, r, (p, w ∙ all ∙ ap (copied s.mem d a) total))
        | inr many ↦
            let le : 4 ≤ k = ground arith in
            let (f, t, r, (p, w)) =
              rest k d a (two_moved h false (k - 4)) m' (omega arith) le refl in
            word_more s (k - 4) odd (omega arith) (omega arith) (omega arith)
              (f, t, r, (p, w ∙ all ∙ ap (copied s.mem d a) total))
      ]
]

enter_small :
    (s : Cpu) {P : Cpu → Type 0}
    → s.rd2 < 4
    → Returns memcpy_desc_020_code 32 (set_left s true (left s.rd2)) P
    → Returns memcpy_desc_020_code 0 s P
unfolding run
enter_small s small (f, t, r, p) = (suc (suc f), t, ground arith, p)

abbrev bit_tested : Cpu → Cpu
bit_tested s =
    flags long (s.ra0 % 2 == 1) (s.ra0 / 2) (record s { rd0 = s.ra0 / 2; rd2 = s.rd2 - 4 })

enter_large :
    (s : Cpu) {P : Cpu → Type 0}
    → s.ra0 < 2 ^ 32
    → 4 ≤ s.rd2
    → s.rd2 < 2 ^ 32
    → Returns memcpy_desc_020_code 8 (bit_tested s) P
    → Returns memcpy_desc_020_code 0 s P
unfolding run
enter_large s fits large small (f, t, r, p) = (suc (suc (suc (suc f))), t, ground arith, p)

is_even :
    (s : Cpu) {P : Cpu → Type 0}
    → s.c ≡ false
    → Returns memcpy_desc_020_code 16 s P
    → Returns memcpy_desc_020_code 8 s P
unfolding run
is_even s e (f, t, r, p) = (suc f, t, ground arith, p)

odd_more :
    (s : Cpu) (k : ℕ) {P : Cpu → Type 0}
    → IsBytes s.mem
    → Room 1 s
    → s.c ≡ true
    → s.rd2 ≡ suc k
    → suc k < 2 ^ 32
    → Returns memcpy_desc_020_code 16 (set_left (one_moved s k) false k) P
    → Returns memcpy_desc_020_code 8 s P
unfolding run
odd_more s k bytes (lo, lo', hi, hi') e count small (f, t, r, p) =
    let fit = bytes (s.ra1 - 1) in (suc (suc (suc (suc f))), t, ground arith, p)

odd_last :
    (s : Cpu) {P : Cpu → Type 0}
    → IsBytes s.mem
    → Room 1 s
    → s.c ≡ true
    → s.rd2 ≡ 0
    → Returns memcpy_desc_020_code 32 (set_left (one_moved s s.rd2) true (left 3)) P
    → Returns memcpy_desc_020_code 8 s P
unfolding run
odd_last s bytes (lo, lo', hi, hi') e count (f, t, r, p) =
    let fit = bytes (s.ra1 - 1) in (suc (suc (suc (suc f))), t, ground arith, p)

-- The last byte of a copy of `k + 1` bytes.
last_one :
    (k d a : ℕ) (s : Cpu)
    → Ends d a (suc k) s
    → copied (update s.mem (s.ra0 - 1) (s.mem (s.ra1 - 1))) d a k ≡ copied s.mem d a (suc k)
last_one k d a s (e0, e1, fits, fits', down) =
    let last0 : s.ra0 - 1 ≡ d + k = omega arith in
    let last1 : s.ra1 - 1 ≡ a + k = omega arith in rw (last0, last1) (copied-last s.mem d a k down)

-- At least four bytes, with bit 0 of the end in the carry.
from_bit :
    (k d a : ℕ) (s : Cpu)
    → IsBytes s.mem
    → Ends d a (suc k) s
    → 3 ≤ k
    → s.rd2 ≡ k - 3
    → Returns memcpy_desc_020_code 8 s (Copies d a (suc k) s)
from_bit k d a s bytes ends large e = elim (Bool-cases s.c) [
  | inr even ↦ is_even s even (words (suc k) d a s bytes ends (omega arith) (omega arith))
  | inl odd ↦
      let m' = IsBytes-update s.mem (s.ra0 - 1) (s.mem (s.ra1 - 1)) bytes (bytes (s.ra1 - 1)) in
      let all = last_one k d a s ends in
      elim (Bool-cases (ltb k 4)) [
        | inl few ↦
            let lt = ltb→lt k 4 few in
            let three_k : 3 ≡ k = omega arith in
            let three : left 3 ≡ left k = ap left three_k in
            let u = set_left (one_moved s s.rd2) true (left 3) in
            let (f, t, r, (p, w)) = tail k d a u m' (omega arith) three lt in
            odd_last s bytes (omega arith) odd (omega arith) (f, t, r, (p, w ∙ all))
        | inr many ↦
            let le : 4 ≤ k = ground arith in
            let u = set_left (one_moved s (k - 4)) false (k - 4) in
            let (f, t, r, (p, w)) = words k d a u m' (omega arith) le refl in
            odd_more s (k - 4) bytes (omega arith) odd (omega arith) (omega arith)
              (f, t, r, (p, w ∙ all))
      ]
]

-- On the 68020 too, for every count and every alignment, `memcpy_desc`, given the ends of two areas,
-- returns, with the start of the destination as its result and exactly the `n` bytes copied, if the
-- areas do not overlap or the destination starts at or above the source.
pub memcpy_desc_020-copied :
    (n d a : ℕ) (s : Cpu)
    → IsBytes s.mem
    → Ends d a n s
    → s.rd2 ≡ n
    → Returns memcpy_desc_020_code 0 s (λ t. (t.rd0 ≡ d) × (t.mem ≡ copied s.mem d a n))
memcpy_desc_020-copied n d a s bytes ends e = elim (Bool-cases (ltb n 4)) [
  | inl small ↦
      let lt = ltb→lt n 4 small in
      enter_small s (omega arith)
        (tail n d a (set_left s true (left s.rd2)) bytes ends (ap left e) lt)
  | inr large ↦
      let le : 4 ≤ n = ground arith in
      let one : suc (n - 1) ≡ n = omega arith in
      enter_large s (omega arith) (omega arith) (omega arith) (
        rw (← one)
          (from_bit (n - 1) d a (bit_tested s) bytes (rw one ends) (omega arith) (omega arith)))
]
