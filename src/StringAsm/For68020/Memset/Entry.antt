-- ===== src/StringAsm/For68020/Memset/Entry.antt =====
-- The entry of `memset` for the 68020: the longword of equal bytes, an odd start, and a word.
use mathlib.Core.Path.{fun_ext}
use amiga_dev.Common.{
  ℕ, suc, ◌+◌, ◌-◌, ◌*◌, ◌/◌, ◌%◌, ◌^◌, ◌≤◌, ◌<◌, ◌≡◌, arith, true, false, ltb, ◌==◌, Bool,
  Bool-cases, inl, inr, ◌∙◌, refl, ap, ltb→lt,
}
use amiga_dev.Machine.{Cpu, Memory, flags, byte, word, long, update, move, lsl_l, swap, dn, d0, d1}
use amiga_dev.Machine.Run.{run, Returns, after}
use amiga_dev.StringAsm.Memset.{Fills, filled, filled-suc, pattern_of, one_stored}
use amiga_dev.StringAsm.For68020.{memset_020_code}
use amiga_dev.StringAsm.For68020.Memcpy.{set_left, halved}
use amiga_dev.StringAsm.For68020.Memset.{rest, few}
use amiga_dev.StringAsm.For68020.Words.{two}

filled-two :
    (m : Memory) (d v n : ℕ)
    → v < 256
    → filled (two m d (pattern_of v % 2 ^ 16)) (d + 2) v n ≡ filled m d v (2 + n)
filled-two m d v n small = fun_ext λ j.
    let hi : pattern_of v % 2 ^ 16 / 2 ^ 8 % 2 ^ 8 ≡ v = omega arith in
    let low : pattern_of v % 2 ^ 16 % 2 ^ 8 ≡ v = omega arith in rw (hi, low) (ground arith)

no_word :
    (s : Cpu) {P : Cpu → Type 0}
    → (s.rd1 % 2 == 1) ≡ false
    → Returns memset_020_code 40 (halved s false) P
    → Returns memset_020_code 32 s P
unfolding run
no_word s bit (f, t, r, p) = (suc (suc f), t, ground arith, p)

-- A word stored.
abbrev two_stored : Cpu → ℕ → Cpu
two_stored s k =
    set_left (record s { rd1 = s.rd1 / 2; ra0 = s.ra0 + 2; mem = two s.mem s.ra0 (s.rd0 % 2 ^ 16) })
      false k

with_word :
    (s : Cpu) (k : ℕ) {P : Cpu → Type 0}
    → (s.rd1 % 2 == 1) ≡ true
    → s.ra0 + 2 < 2 ^ 32
    → s.rd2 ≡ k + 2
    → k + 2 < 2 ^ 32
    → Returns memset_020_code 40 (two_stored s k) P
    → Returns memset_020_code 32 s P
unfolding run
with_word s k bit fit e small (f, t, r, p) = (suc (suc (suc (suc f))), t, ground arith, p)

-- At least six bytes, with bit 1 of the start as bit 0 of `d1`.
words :
    (n v : ℕ) (s : Cpu)
    → s.ra0 + n < 2 ^ 32
    → s.ra1 < 2 ^ 32
    → 6 ≤ n
    → s.rd2 ≡ n - 4
    → v < 256
    → s.rd0 ≡ pattern_of v
    → Returns memset_020_code 32 s (Fills v n s)
words n v s fits fits' large e small value = elim (Bool-cases (s.rd1 % 2 == 1)) [
  | inr even ↦ no_word s even (rest n v (halved s false) fits fits' (omega arith) e small value)
  | inl odd ↦
      let k = n - 2 in
      let (f, t, r, (p, w)) =
        rest k v (two_stored s (k - 4)) (omega arith) fits' (omega arith) refl small value in
      let same = ap (λ (x : ℕ). filled (two s.mem s.ra0 (x % 2 ^ 16)) (s.ra0 + 2) v k) value in
      let total : 2 + k ≡ n = omega arith in
      with_word s (k - 4) odd (omega arith) (omega arith) (omega arith) (
        f,
        t,
        r,
        (p, w ∙ same ∙ filled-two s.mem s.ra0 v k small ∙ ap (filled s.mem s.ra0 v) total),
      )
]

is_even :
    (s : Cpu) {P : Cpu → Type 0}
    → s.c ≡ false
    → Returns memset_020_code 32 s P
    → Returns memset_020_code 24 s P
unfolding run
is_even s e (f, t, r, p) = (suc f, t, ground arith, p)

-- One byte stored, and `d1` counted up.
abbrev stepped : Cpu → ℕ → Cpu
stepped s k = set_left (record (one_stored s k) { rd1 = s.rd1 + 1 }) false k

is_odd :
    (s : Cpu) (k : ℕ) {P : Cpu → Type 0}
    → s.c ≡ true
    → s.ra0 + 1 < 2 ^ 32
    → s.rd1 < 2 ^ 31
    → s.rd2 ≡ suc k
    → suc k < 2 ^ 32
    → Returns memset_020_code 32 (stepped s k) P
    → Returns memset_020_code 24 s P
unfolding run
is_odd s k e fits half_fits count small (f, t, r, p) = (suc (suc (suc (suc f))), t, ground arith, p)

-- At least eight bytes, with bit 0 of the start in the carry.
from_bit :
    (n v : ℕ) (s : Cpu)
    → s.ra0 + n < 2 ^ 32
    → s.ra1 < 2 ^ 32
    → 8 ≤ n
    → s.rd1 < 2 ^ 31
    → s.rd2 ≡ n - 4
    → v < 256
    → s.rd0 ≡ pattern_of v
    → Returns memset_020_code 24 s (Fills v n s)
from_bit n v s fits fits' large half_fits e small value = elim (Bool-cases s.c) [
  | inr even ↦ is_even s even (words n v s fits fits' (omega arith) e small value)
  | inl odd ↦
      let k = n - 1 in
      let low : s.rd0 % 2 ^ 8 ≡ v = omega arith in
      let one : suc k ≡ n = omega arith in
      let (f, t, r, (p, w)) =
        words k v (stepped s (k - 4)) (omega arith) fits' (omega arith) refl small value in
      let same = ap (λ (x : ℕ). filled (update s.mem s.ra0 x) (s.ra0 + 1) v k) low in
      is_odd s (k - 4) odd (omega arith) half_fits (omega arith) (omega arith)
        (f, t, r, (p, w ∙ same ∙ filled-suc s.mem s.ra0 v k ∙ ap (filled s.mem s.ra0 v) one))
]

-- The longword of equal bytes, built from the low byte of `d0`.
abbrev doubled : Cpu → Cpu
doubled s =
    after (move byte (dn d1) (dn d0)) (after (lsl_l 8 d0) (after (move long (dn d0) (dn d1)) s))

abbrev spread : Cpu → Cpu
spread s = after (move word (dn d1) (dn d0)) (after (swap d0) (after (move long (dn d0) (dn d1)) s))

double_word : (s : Cpu) → (doubled s).rd0 % 2 ^ 16 ≡ s.rd0 % 2 ^ 8 * 2 ^ 8 + s.rd0 % 2 ^ 8
double_word s = omega arith

doubled-lt : (s : Cpu) → s.rd0 < 2 ^ 32 → (doubled s).rd0 < 2 ^ 32
doubled-lt s small = omega arith

spread_halves :
    (s : Cpu) → s.rd0 < 2 ^ 32 → (spread s).rd0 ≡ s.rd0 % 2 ^ 16 * 2 ^ 16 + s.rd0 % 2 ^ 16
spread_halves s small = omega arith

spread-doubled :
    (s : Cpu) (k : ℕ)
    → s.rd0 < 2 ^ 32
    → (spread (set_left (doubled s) false k)).rd0 ≡ pattern_of (s.rd0 % 2 ^ 8)
spread-doubled s k small =
    omega (arith, spread_halves (set_left (doubled s) false k) (doubled-lt s small), double_word s)

build_pattern :
    (s : Cpu) (k : ℕ) {P : Cpu → Type 0}
    → s.rd2 + 4 ≡ k
    → k < 2 ^ 32
    → Returns memset_020_code 20 (spread (set_left (doubled s) false k)) P
    → Returns memset_020_code 6 s P
unfolding run
build_pattern s k e small (f, t, r, p) =
    (suc (suc (suc (suc (suc (suc (suc f)))))), t, ground arith, p)

-- The test of bit 0 of the start.
abbrev tested : Cpu → Cpu
tested s = flags long (s.ra1 % 2 == 1) (s.ra1 / 2) (record s { rd1 = s.ra1 / 2 })

test_bit :
    (s : Cpu) {P : Cpu → Type 0}
    → s.ra1 < 2 ^ 32
    → Returns memset_020_code 24 (tested s) P
    → Returns memset_020_code 20 s P
unfolding run
test_bit s fits (f, t, r, p) = (suc (suc f), t, ground arith, p)

abbrev entered : Cpu → Bool → ℕ → Cpu
entered s borrow k = set_left (record s { ra1 = s.ra0 }) borrow k

enter_few :
    (s : Cpu) {P : Cpu → Type 0}
    → s.ra0 < 2 ^ 32
    → s.rd2 < 8
    → Returns memset_020_code 52 (entered s true (2 ^ 32 - 8 + s.rd2)) P
    → Returns memset_020_code 0 s P
unfolding run
enter_few s fits small (f, t, r, p) = (suc (suc (suc f)), t, ground arith, p)

enter_many :
    (s : Cpu) {P : Cpu → Type 0}
    → s.ra0 < 2 ^ 32
    → 8 ≤ s.rd2
    → s.rd2 < 2 ^ 32
    → Returns memset_020_code 6 (entered s false (s.rd2 - 8)) P
    → Returns memset_020_code 0 s P
unfolding run
enter_many s fits large small (f, t, r, p) = (suc (suc (suc f)), t, ground arith, p)

-- On the 68020 too, for every count and alignment of an area that ends below 2^32, `memset` returns,
-- with its first argument as the result, and exactly the `n` bytes there are the low byte of its
-- second argument, a longword.
pub memset_020-filled :
    (n : ℕ) (s : Cpu)
    → s.ra0 + n < 2 ^ 32
    → s.rd0 < 2 ^ 32
    → s.rd2 ≡ n
    → Returns memset_020_code 0 s
        (λ t. (t.rd0 ≡ s.ra0) × (t.mem ≡ filled s.mem s.ra0 (s.rd0 % 2 ^ 8) n))
memset_020-filled n s fits small e = elim (Bool-cases (ltb n 8)) [
  | inl less ↦
      let lt = ltb→lt n 8 less in
      enter_few s (omega arith) (omega arith) (
        few n (entered s true (2 ^ 32 - 8 + s.rd2)) fits (omega arith)
          (ap (λ (x : ℕ). 2 ^ 32 - 8 + x) e) lt)
  | inr more ↦
      let le : 8 ≤ n = ground arith in
      let u = entered s false (s.rd2 - 8) in
      let w = spread (set_left (doubled u) false (n - 4)) in
      enter_many s (omega arith) (omega arith) (omega arith) (
        build_pattern u (n - 4) (omega arith) (omega arith) (
          test_bit w (omega arith) (
            from_bit n (s.rd0 % 2 ^ 8) (tested w) fits (omega arith) le (omega arith) refl
              (omega arith) (spread-doubled u (n - 4) small))))
]
