-- ===== src/StringAsm/Memset/Entry.antt =====
-- The entry of `memset`: small areas, the first byte, and the longword of equal bytes.
use amiga_dev.Common.{
  ℕ, suc, ◌+◌, ◌-◌, ◌*◌, ◌/◌, ◌%◌, ◌^◌, ◌≤◌, ◌<◌, ◌≡◌, ◌≢◌, arith, true, false, ltb, ◌==◌,
  Bool-cases, inl, inr, ◌∙◌, refl, ap, ==→eq, ltb→lt, one-bit_and, bit_and-three,
}
use amiga_dev.Machine.{move, lsl_w, swap, dn, d0, d1, Cpu, flags, byte, word, long, minus}
use amiga_dev.Machine.Run.{run, Returns, after}
use amiga_dev.StringAsm.{memset_code}
use amiga_dev.StringAsm.Memset.{Fills, filled, filled-suc, pattern_of, one_stored, tail, longs}

abbrev entered : Cpu → Cpu
entered s = record s { ra1 = s.ra0 }

abbrev compared : Cpu → ℕ → Cpu
compared s k = flags long (ltb s.rd2 k) (minus long s.rd2 k) s

enter_small :
    (s : Cpu) {P : Cpu → Type 0}
    → s.ra0 < 2 ^ 32
    → s.rd2 < 16
    → Returns memset_code 48 (compared (entered s) 16) P
    → Returns memset_code 0 s P
unfolding run
enter_small s fits small (f, t, r, p) =
    let below : ltb s.rd2 16 ≡ true = ground arith in (suc (suc (suc f)), t, ground arith, p)

abbrev tested : Cpu → Cpu
tested s =
    flags byte false (s.ra0 % 2) (record (entered s) { rd1 = s.ra0 / 2 ^ 8 * 2 ^ 8 + s.ra0 % 2 })

enter_large :
    (s : Cpu) {P : Cpu → Type 0}
    → s.ra0 < 2 ^ 32
    → 16 ≤ s.rd2
    → s.rd2 < 2 ^ 32
    → Returns memset_code 16 (tested s) P
    → Returns memset_code 0 s P
unfolding run
enter_large s fits large small (f, t, r, p) =
    let above : ltb s.rd2 16 ≡ false = ground arith in
    let bit = one-bit_and (s.ra0 % 2 ^ 8) in
    (suc (suc (suc (suc (suc f)))), t, ground (arith, bit), p)

is_even :
    (s : Cpu) {P : Cpu → Type 0}
    → s.z ≡ true
    → Returns memset_code 22 s P
    → Returns memset_code 16 s P
unfolding run
is_even s zf (f, t, r, p) = (suc f, t, ground arith, p)

is_odd :
    (s : Cpu) (k : ℕ) {P : Cpu → Type 0}
    → s.ra0 + 1 < 2 ^ 32
    → s.z ≡ false
    → s.rd2 ≡ suc k
    → suc k < 2 ^ 32
    → Returns memset_code 22 (flags long false k (one_stored s k)) P
    → Returns memset_code 16 s P
unfolding run
is_odd s k fits zf e small (f, t, r, p) = (suc (suc (suc f)), t, ground arith, p)

-- The longword of equal bytes, built from the low byte of `d0`.
abbrev doubled : Cpu → Cpu
doubled s =
    after (move byte (dn d1) (dn d0)) (after (lsl_w 8 d0) (after (move byte (dn d0) (dn d1)) s))

abbrev spread : Cpu → Cpu
spread s = after (move word (dn d1) (dn d0)) (after (swap d0) (after (move word (dn d0) (dn d1)) s))

double_word : (s : Cpu) → (doubled s).rd0 % 2 ^ 16 ≡ s.rd0 % 2 ^ 8 * 2 ^ 8 + s.rd0 % 2 ^ 8
double_word s = omega arith

doubled-lt : (s : Cpu) → s.rd0 < 2 ^ 32 → (doubled s).rd0 < 2 ^ 32
doubled-lt s small = omega arith

spread_halves :
    (s : Cpu) → s.rd0 < 2 ^ 32 → (spread s).rd0 ≡ s.rd0 % 2 ^ 16 * 2 ^ 16 + s.rd0 % 2 ^ 16
spread_halves s small = omega arith

pub spread-doubled :
    (s : Cpu) → s.rd0 < 2 ^ 32 → (spread (doubled s)).rd0 ≡ pattern_of (s.rd0 % 2 ^ 8)
spread-doubled s small =
    omega (arith, spread_halves (doubled s) (doubled-lt s small), double_word s)

build_pattern :
    (s : Cpu) {P : Cpu → Type 0}
    → Returns memset_code 34 (spread (doubled s)) P
    → Returns memset_code 22 s P
unfolding run
build_pattern s (f, t, r, p) = (suc (suc (suc (suc (suc (suc f))))), t, r, p)

-- `d2` becomes the bytes in longwords and `d1` the bytes left over.
abbrev divided : Cpu → Cpu
divided s =
    flags long (ltb s.rd2 (s.rd2 % 4)) (s.rd2 - s.rd2 % 4)
      (record s { rd1 = s.rd2 % 4; rd2 = s.rd2 - s.rd2 % 4 })

divide :
    (s : Cpu) {P : Cpu → Type 0}
    → s.rd2 < 2 ^ 32
    → Returns memset_code 40 (divided s) P
    → Returns memset_code 34 s P
unfolding run
divide s small (f, t, r, p) =
    let bits = bit_and-three s.rd2 in (suc (suc (suc f)), t, ground (arith, bits), p)

from_even :
    (n : ℕ) (s : Cpu)
    → s.ra0 + n < 2 ^ 32
    → s.ra1 < 2 ^ 32
    → s.ra0 % 2 ≡ 0
    → s.rd2 ≡ n
    → s.rd0 < 2 ^ 32
    → 4 ≤ n
    → n < 2 ^ 32
    → Returns memset_code 22 s (Fills (s.rd0 % 2 ^ 8) n s)
from_even n s fits fits' even e small large bound =
    let u = spread (doubled s) in
    build_pattern s (
      divide u (omega arith) (
        longs (n / 4 - 1) (n % 4) n (s.rd0 % 2 ^ 8) (divided u) (omega arith) fits fits' even
          (omega arith) (omega arith) (omega arith) (omega arith) (spread-doubled s small)))

-- For every count and alignment, `memset` returns with no address error, with its first argument
-- as the result, and exactly the `n` bytes there are the low byte of its second argument.
pub memset-filled :
    (n : ℕ) (s : Cpu)
    → s.ra0 + n < 2 ^ 32
    → s.rd0 < 2 ^ 32
    → s.rd2 ≡ n
    → Returns memset_code 0 s
        (λ t. (t.rd0 ≡ s.ra0) × (t.mem ≡ filled s.mem s.ra0 (s.rd0 % 2 ^ 8) n))
memset-filled n s fits small e = elim (Bool-cases (ltb n 16)) [
  | inl few ↦
      let lt = ltb→lt n 16 few in
      enter_small s (omega arith) (omega arith)
        (tail n (s.rd0 % 2 ^ 8) (compared (entered s) 16) fits (omega arith) e (omega arith) refl)
  | inr many ↦
      let le : 16 ≤ n = ground arith in
      enter_large s (omega arith) (omega arith) (omega arith) (elim (Bool-cases (s.ra0 % 2 == 0)) [
        | inl even ↦ is_even (tested s) even (
            from_even n (tested s) fits (omega arith) (==→eq _ _ even) e small (omega arith)
              (omega arith))
        | inr odd ↦
            let k = n - 1 in
            let v = s.rd0 % 2 ^ 8 in
            let u = flags long false k (one_stored (tested s) k) in
            let uneven : s.ra0 % 2 ≢ 0 = ground arith in
            let one : suc k ≡ n = omega arith in
            let (f, t, r, (p, q)) =
              from_even k u (omega arith) (omega arith) (omega arith) refl small (omega arith)
                (omega arith) in
            is_odd (tested s) k (omega arith) odd (omega arith) (omega arith)
              (f, t, r, (p, q ∙ filled-suc s.mem s.ra0 v k ∙ ap (filled s.mem s.ra0 v) one))
      ])
]
