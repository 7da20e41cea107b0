-- ===== src/Rstat/Ticks.antt =====
-- The correction of the interrupt count in `updatestat` of rstat_proc.c.
use amiga_dev.Common.{
  ℕ, ◌+◌, ◌-◌, ◌*◌, ◌/◌, ◌%◌, ◌^◌, ◌≤◌, ◌<◌, ◌≡◌, refl, ◌∙◌, ap, arith, ltb, lt→ltb, le→ltb, inl,
  inr, Bool-cases, ltb→lt,
}
use native.Mathlib.Nat.{mul-add, mul-sub}
use amiga_dev.Rstat.{Timeval, add32, sub32, div32, ticks}

-- A signed word that is not negative.
div32-pos : (x d : ℕ) → x < 2 ^ 31 → div32 x d ≡ x / d
div32-pos x d h = rw (lt→ltb x (2 ^ 31) h) refl

-- A signed word that is negative.
div32-neg : (y : ℕ) → 0 < y → y < 2 ^ 31 → div32 (2 ^ 32 - y) 1000000 ≡ sub32 0 (y / 1000000)
div32-neg y pos small =
    let back : 2 ^ 32 - (2 ^ 32 - y) ≡ y = omega arith in
    rw (le→ltb (2 ^ 32 - y) (2 ^ 31) (omega arith), back) refl

sub32-le : (x y : ℕ) → y ≤ x → x < 2 ^ 32 → sub32 x y ≡ x - y
sub32-le x y le small = omega arith

sub32-lt : (x y : ℕ) → x < y → y < 2 ^ 32 → sub32 x y ≡ 2 ^ 32 - (y - x)
sub32-lt x y lt small = omega arith

-- A product of a negative word.
mul-neg :
    (h y : ℕ) → 0 < h * y → h * y < 2 ^ 32 → y < 2 ^ 32 → h * (2 ^ 32 - y) % 2 ^ 32 ≡ 2 ^ 32 - h * y
mul-neg h y pos small fits =
    let z = 2 ^ 32 - y in
    let all : h * (z + y) ≡ h * z + h * y = grind arith in
    let whole : h * (z + y) ≡ h * 2 ^ 32 = ap (λ (x : ℕ). h * x) (omega arith) in omega arith

mul-le : (h u w : ℕ) → u ≤ w → h * u ≤ h * w
mul-le h u w le =
    let split = mul-add h u (w - u) in
    let whole : h * (u + (w - u)) ≡ h * w = ap (λ (x : ℕ). h * x) (omega arith) in omega arith

forward :
    (a y : ℕ) → a < 2 ^ 31 → y < 2 ^ 31 → add32 a (div32 (y % 2 ^ 32) 1000000) ≡ a + y / 1000000
forward a y ha hy =
    let whole : y % 2 ^ 32 ≡ y = omega arith in rw (whole, div32-pos y 1000000 hy) (omega arith)

backward :
    (a y : ℕ)
    → a < 2 ^ 31
    → 0 < y
    → y < 2 ^ 31
    → y / 1000000 ≤ a
    → add32 a (div32 (2 ^ 32 - y) 1000000) ≡ a - y / 1000000
backward a y ha pos hy le = rw (div32-neg y pos hy) (omega arith)

-- The microseconds of a time.
abbrev pub micros : Timeval → ℕ
micros t = t.tv_sec * 1000000 + t.tv_usec

-- The times, the clock rate and the ticks of whole seconds are small enough for signed words.
pub record Fits (hz : ℕ) (tm btm : Timeval) : Type 0 where
  pub runs : 0 < hz
  pub rate : hz * 1000000 < 2 ^ 31
  pub now_sec : tm.tv_sec < 2 ^ 31
  pub now_usec : tm.tv_usec < 1000000
  pub boot_usec : btm.tv_usec < 1000000
  pub booted : micros btm ≤ micros tm
  pub seconds : hz * (tm.tv_sec - btm.tv_sec) < 2 ^ 31

-- Less than one tick away from the clock rate times so many microseconds.
abbrev pub Near : ℕ → ℕ → ℕ → Type 0
Near t hz e = (hz * e < (t + 1) * 1000000) × (t * 1000000 < hz * e + 1000000)

later_ticks-Near :
    (hz : ℕ) (tm btm : Timeval)
    → Fits hz tm btm
    → btm.tv_usec ≤ tm.tv_usec
    → Near (ticks hz tm btm) hz (micros tm - micros btm)
later_ticks-Near hz tm btm f le =
    let r1 = f.rate in
    let r2 = f.now_sec in
    let r3 = f.now_usec in
    let r4 = f.booted in
    let r5 = f.seconds in
    let s = tm.tv_sec - btm.tv_sec in
    let u = tm.tv_usec - btm.tv_usec in
    let bound = mul-le hz u 1000000 (omega arith) in
    let es : sub32 tm.tv_sec btm.tv_sec ≡ s = omega arith in
    let eu : sub32 tm.tv_usec btm.tv_usec ≡ u = omega arith in
    let e : micros tm - micros btm ≡ s * 1000000 + u = omega arith in
    let product : hz * (s * 1000000 + u) ≡ hz * s * 1000000 + hz * u = grind arith in
    rw (es, eu, e, product, forward (hz * s) (hz * u) r5 (omega arith)) (omega arith, omega arith)

earlier_ticks-Near :
    (hz : ℕ) (tm btm : Timeval)
    → Fits hz tm btm
    → tm.tv_usec < btm.tv_usec
    → Near (ticks hz tm btm) hz (micros tm - micros btm)
earlier_ticks-Near hz tm btm f lt =
    let r0 = f.runs in
    let r1 = f.rate in
    let r2 = f.now_sec in
    let r3 = f.boot_usec in
    let r4 = f.booted in
    let r5 = f.seconds in
    let s = tm.tv_sec - btm.tv_sec in
    let u = btm.tv_usec - tm.tv_usec in
    let bound = mul-le hz u 1000000 (omega arith) in
    let pos = mul-le hz 1 u (omega arith) in
    let whole = mul-le hz 1 s (omega arith) in
    let es : sub32 tm.tv_sec btm.tv_sec ≡ s = omega arith in
    let eu : sub32 tm.tv_usec btm.tv_usec ≡ 2 ^ 32 - u =
      sub32-lt tm.tv_usec btm.tv_usec lt (omega arith) in
    let neg = mul-neg hz u (omega arith) (omega arith) (omega arith) in
    let e : micros tm - micros btm ≡ s * 1000000 - u = omega arith in
    let product : hz * (s * 1000000 - u) ≡ hz * s * 1000000 - hz * u =
      mul-sub hz (s * 1000000) u ∙ ap (λ (x : ℕ). x - hz * u) (grind arith) in
    rw
      (
        es,
        eu,
        neg,
        e,
        product,
        backward (hz * s) (hz * u) r5 (omega arith) (omega arith) (omega arith),
      )
      (omega arith, omega arith)

-- The ticks that `updatestat` takes off the interrupt count differ from the clock rate times the
-- time since the boot by less than one tick, when the boot is not in the future and the products
-- fit signed words.
pub ticks-Near :
    (hz : ℕ) (tm btm : Timeval)
    → Fits hz tm btm
    → Near (ticks hz tm btm) hz (micros tm - micros btm)
ticks-Near hz tm btm f = elim (Bool-cases (ltb tm.tv_usec btm.tv_usec)) [
  | inl lt ↦ earlier_ticks-Near hz tm btm f (ltb→lt tm.tv_usec btm.tv_usec lt)
  | inr ge ↦ later_ticks-Near hz tm btm f (ground arith)
]
