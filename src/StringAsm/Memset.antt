-- ===== src/StringAsm/Memset.antt =====
-- `memset` for the 68000: its tail and its longword loop.
pub mod Entry
use mathlib.Core.Path.{fun_ext}
use amiga_dev.Common.{
  ℕ, zero, suc, ◌+◌, ◌-◌, ◌*◌, ◌/◌, ◌%◌, ◌^◌, ◌≤◌, ◌<◌, ◌≡◌, ◌⊎◌, arith, true, false, ltb, leb,
  ◌==◌, ◌&&◌, if◌then◌else◌, inl, inr, ◌∙◌, sym, refl, ap,
}
use amiga_dev.Machine.{Cpu, Memory, flags, byte, word, long, minus, update, wrap}
use amiga_dev.Machine.Run.{run, Returns, final}
use amiga_dev.StringAsm.{memset_code}
use amiga_dev.StringAsm.Copies.{four}

-- `n` bytes `v` at `d`, the rest as in `m`.
abbrev pub filled : Memory → ℕ → ℕ → ℕ → Memory
filled m d v n j = if leb d j && ltb j (d + n) then v else m j

pub filled-zero : (m : Memory) (d v : ℕ) → filled m d v 0 ≡ m
filled-zero m d v = fun_ext λ j. ground arith

pub filled-suc : (m : Memory) (d v n : ℕ) → filled (update m d v) (d + 1) v n ≡ filled m d v (suc n)
filled-suc m d v n = fun_ext λ j. ground arith

-- The longword of four equal bytes.
abbrev pub pattern_of : ℕ → ℕ
pattern_of v = v * 2 ^ 24 + v * 2 ^ 16 + v * 2 ^ 8 + v

quad : Memory → ℕ → ℕ → Memory
quad m d v = update (update (update (update m d v) (d + 1) v) (d + 2) v) (d + 3) v

quad-filled :
    (m : Memory) (d v n j : ℕ) → filled (quad m d v) (d + 4) v n j ≡ filled m d v (4 + n) j
unfolding quad
quad-filled m d v n j = ground arith

pub filled-four :
    (m : Memory) (d v n : ℕ)
    → v < 256
    → filled (four m d (pattern_of v)) (d + 4) v n ≡ filled m d v (4 + n)
unfolding quad
filled-four m d v n small = fun_ext λ j.
    let e0 : pattern_of v / 2 ^ 24 % 2 ^ 8 ≡ v = omega arith in
    let e1 : pattern_of v / 2 ^ 16 % 2 ^ 8 ≡ v = omega arith in
    let e2 : pattern_of v / 2 ^ 8 % 2 ^ 8 ≡ v = omega arith in
    let e3 : pattern_of v % 2 ^ 8 ≡ v = omega arith in rw (e0, e1, e2, e3) (quad-filled m d v n j)

-- What a block leaves: the start of the area, kept in `a1`, as the result.
abbrev pub Fills : ℕ → ℕ → Cpu → Cpu → Type 0
Fills v n s t = (t.rd0 ≡ s.ra1) × (t.mem ≡ filled s.mem s.ra0 v n)

abbrev pub one_stored : Cpu → ℕ → Cpu
one_stored s k =
    flags byte false (s.rd0 % 2 ^ 8)
      (record s { rd2 = k; ra0 = s.ra0 + 1; mem = update s.mem s.ra0 (s.rd0 % 2 ^ 8) })

dbf_again :
    (s : Cpu) (k : ℕ) {P : Cpu → Type 0}
    → s.ra0 + 1 < 2 ^ 32
    → s.rd2 ≡ suc k
    → suc k < 2 ^ 16
    → Returns memset_code 52 (one_stored s k) P
    → Returns memset_code 52 s P
unfolding run
dbf_again s k fits e small (f, t, r, p) = (suc (suc f), t, ground arith, p)

dbf_stops :
    (s : Cpu)
    → s.rd2 ≡ 0
    → s.ra1 < 2 ^ 32
    → Returns memset_code 52 s (λ t. (t.rd0 ≡ s.ra1) × (t.mem ≡ update s.mem s.ra0 (s.rd0 % 2 ^ 8)))
unfolding run
dbf_stops s e fits =
    let t = final s (run memset_code 4 52 s) in (4, t, ground arith, (ground arith, ground arith))

dbf_loop :
    (k v : ℕ) (s : Cpu)
    → s.ra0 + suc k < 2 ^ 32
    → s.ra1 < 2 ^ 32
    → s.rd2 ≡ k
    → k < 2 ^ 16
    → s.rd0 % 2 ^ 8 ≡ v
    → Returns memset_code 52 s (Fills v (suc k) s)
dbf_loop zero v s fits fits' e small value =
    let (f, t, r, (p, q)) = dbf_stops s e fits' in
    let start = filled-zero (update s.mem s.ra0 v) (s.ra0 + 1) v in
    let stored = ap (update s.mem s.ra0) value in
    (f, t, r, (p, q ∙ stored ∙ sym start ∙ filled-suc s.mem s.ra0 v 0))
dbf_loop (suc k) v s fits fits' e small value =
    let (f, t, r, (p, q)) =
      dbf_loop k v (one_stored s k) (omega arith) fits' refl (omega arith) value in
    let stored = ap (λ (x : ℕ). filled (update s.mem s.ra0 x) (s.ra0 + 1) v (suc k)) value in
    dbf_again s k (omega arith) e small
      (f, t, r, (p, q ∙ stored ∙ filled-suc s.mem s.ra0 v (suc k)))

tail_some :
    (s : Cpu) (k : ℕ) {P : Cpu → Type 0}
    → s.rd2 ≡ suc k
    → suc k < 2 ^ 16
    → Returns memset_code 52 (flags word false k (record s { rd2 = k })) P
    → Returns memset_code 48 s P
unfolding run
tail_some s k e small (f, t, r, p) = (suc (suc f), t, ground arith, p)

tail_none :
    (s : Cpu)
    → s.rd2 ≡ 0
    → s.ra1 < 2 ^ 32
    → Returns memset_code 48 s (λ t. (t.rd0 ≡ s.ra1) × (t.mem ≡ s.mem))
unfolding run
tail_none s e fits =
    let t = final s (run memset_code 4 48 s) in (4, t, ground arith, (ground arith, ground arith))

-- The tail: the low word of `d2` counts the bytes.
pub tail :
    (n v : ℕ) (s : Cpu)
    → s.ra0 + n < 2 ^ 32
    → s.ra1 < 2 ^ 32
    → s.rd2 ≡ n
    → n < 2 ^ 16
    → s.rd0 % 2 ^ 8 ≡ v
    → Returns memset_code 48 s (Fills v n s)
tail zero v s fits fits' e small value =
    let (f, t, r, (p, q)) = tail_none s e fits' in
    (f, t, r, (p, q ∙ sym (filled-zero s.mem s.ra0 v)))
tail (suc k) v s fits fits' e small value =
    tail_some s k e small
      (dbf_loop k v (flags word false k (record s { rd2 = k })) fits fits' refl (omega arith) value)

abbrev four_stored : Cpu → ℕ → Cpu
four_stored s k =
    flags long false k (record s { rd2 = k; ra0 = s.ra0 + 4; mem = four s.mem s.ra0 s.rd0 })

longs_again :
    (s : Cpu) (k : ℕ) {P : Cpu → Type 0}
    → s.ra0 % 2 ≡ 0
    → s.ra0 + 4 < 2 ^ 32
    → s.rd0 < 2 ^ 32
    → s.rd2 ≡ k + 4
    → 0 < k
    → k + 4 < 2 ^ 32
    → Returns memset_code 40 (four_stored s k) P
    → Returns memset_code 40 s P
unfolding run
longs_again s k even fits small e pos bound (f, t, r, p) =
    let align : (s.ra0 % 2 == 0) ≡ true = ground arith in (suc (suc (suc f)), t, ground arith, p)

longs_end :
    (s : Cpu) {P : Cpu → Type 0}
    → s.ra0 % 2 ≡ 0
    → s.ra0 + 4 < 2 ^ 32
    → s.rd0 < 2 ^ 32
    → s.rd2 ≡ 4
    → s.rd1 < 4
    → Returns memset_code 48 (flags word false s.rd1 (record (four_stored s 0) { rd2 = s.rd1 })) P
    → Returns memset_code 40 s P
unfolding run
longs_end s even fits small e left (f, t, r, p) =
    let align : (s.ra0 % 2 == 0) ≡ true = ground arith in
    (suc (suc (suc (suc f))), t, ground arith, p)

-- From the longword loop on, with `d2` the bytes in longwords and `d1` the bytes left over.
pub longs :
    (q r n v : ℕ) (s : Cpu)
    → n ≡ 4 + (4 * q + r)
    → s.ra0 + n < 2 ^ 32
    → s.ra1 < 2 ^ 32
    → s.ra0 % 2 ≡ 0
    → s.rd2 ≡ 4 * q + 4
    → s.rd1 ≡ r
    → r < 4
    → v < 256
    → s.rd0 ≡ pattern_of v
    → Returns memset_code 40 s (Fills v n s)
longs zero r n v s size fits fits' even e e' left small value =
    let s' = flags word false s.rd1 (record (four_stored s 0) { rd2 = s.rd1 }) in
    let (f, t, run, (p, q)) = tail r v s' (omega arith) fits' e' (omega arith) (omega arith) in
    let stored = ap (λ (x : ℕ). filled (four s.mem s.ra0 x) (s.ra0 + 4) v r) value in
    let total : 4 + r ≡ n = omega arith in
    longs_end s even (omega arith) (omega arith) (omega arith) (omega arith) (
      f,
      t,
      run,
      (p, q ∙ stored ∙ filled-four s.mem s.ra0 v r small ∙ ap (filled s.mem s.ra0 v) total),
    )
longs (suc q) r n v s size fits fits' even e e' left small value =
    let k = 4 * q + 4 in
    let (f, t, run, (p, w)) =
      longs q r (4 + (4 * q + r)) v (four_stored s k) refl (omega arith) fits' (omega arith) refl e'
        left small value in
    let rest = 4 + (4 * q + r) in
    let stored = ap (λ (x : ℕ). filled (four s.mem s.ra0 x) (s.ra0 + 4) v rest) value in
    let all = filled-four s.mem s.ra0 v (4 + (4 * q + r)) small in
    let total : 4 + (4 + (4 * q + r)) ≡ n = omega arith in
    longs_again s k even (omega arith) (omega arith) (omega arith) (omega arith) (omega arith)
      (f, t, run, (p, w ∙ stored ∙ all ∙ ap (filled s.mem s.ra0 v) total))
