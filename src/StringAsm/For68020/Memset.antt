-- ===== src/StringAsm/For68020/Memset.antt =====
-- `memset` for the 68020: its tails, its longword loop, and the word before it. `d2` holds the
-- bytes that are left, less four.
pub mod Entry
use amiga_dev.Common.{
  ℕ, zero, suc, ◌+◌, ◌-◌, ◌*◌, ◌/◌, ◌%◌, ◌^◌, ◌≤◌, ◌<◌, ◌≡◌, arith, true, false, ltb, leb, ◌==◌,
  Bool, Bool-cases, inl, inr, ◌∙◌, sym, refl, ap, if◌then◌else◌,
}
use amiga_dev.Machine.{Cpu, flags, byte, word, long, update, half}
use amiga_dev.Machine.Run.{run, Returns, final}
use amiga_dev.StringAsm.Copies.{four}
use amiga_dev.StringAsm.Memset.{Fills, filled, filled-zero, filled-suc, filled-four, pattern_of}
use amiga_dev.StringAsm.For68020.{memset_020_code}
use amiga_dev.StringAsm.For68020.Memcpy.{left, set_left, halved}
use amiga_dev.StringAsm.For68020.Stores.{Stored, store_loop}
use amiga_dev.StringAsm.For68020.Words.{two}

-- The last instruction: the result is the start of the area.
ended :
    (s : Cpu) {P : Cpu → Type 0}
    → s.ra1 < 2 ^ 32
    → ((t : Cpu) → t.rd0 ≡ s.ra1 → t.mem ≡ s.mem → P t)
    → Returns memset_020_code 62 s P
unfolding run
ended s fits p =
    let t = final s (run memset_020_code 2 62 s) in
    (2, t, ground arith, p t (ground arith) (ground arith))

-- At least one byte to store.
bytes :
    (k : ℕ) (s : Cpu)
    → s.ra0 + suc k < 2 ^ 32
    → s.ra1 < 2 ^ 32
    → s.rd2 ≡ k
    → k < 2 ^ 16
    → Returns memset_020_code 56 s (Fills (s.rd0 % 2 ^ 8) (suc k) s)
bytes k s fits fits' e small =
    store_loop memset_020_code 56 k s (refl, refl) fits e small
      (λ t (a, m). ended t (omega arith) (λ u d w. (d ∙ a, w ∙ m)))

tail_none :
    (s : Cpu) {P : Cpu → Type 0}
    → s.rd2 ≡ left 0
    → Returns memset_020_code 62 (set_left s false (2 ^ 32 - 1)) P
    → Returns memset_020_code 46 s P
unfolding run
tail_none s e (f, t, r, p) = (suc (suc (suc f)), t, ground arith, p)

tail_some :
    (s : Cpu) (k : ℕ) {P : Cpu → Type 0}
    → s.rd2 ≡ left (suc k)
    → k < 3
    → Returns memset_020_code 56 (set_left s true k) P
    → Returns memset_020_code 46 s P
unfolding run
tail_some s k e small (f, t, r, p) = (suc (suc f), t, ground arith, p)

-- Fewer than four bytes are left behind the longwords.
tail :
    (r : ℕ) (s : Cpu)
    → s.ra0 + r < 2 ^ 32
    → s.ra1 < 2 ^ 32
    → s.rd2 ≡ left r
    → r < 4
    → Returns memset_020_code 46 s (Fills (s.rd0 % 2 ^ 8) r s)
tail zero s fits fits' e small =
    let nothing = filled-zero s.mem s.ra0 (s.rd0 % 2 ^ 8) in
    tail_none s e (ended (set_left s false (2 ^ 32 - 1)) fits' (λ t d m. (d, m ∙ sym nothing)))
tail (suc k) s fits fits' e small =
    tail_some s k e (omega arith) (bytes k (set_left s true k) fits fits' refl (omega arith))

-- A longword stored.
abbrev four_stored : Cpu → Bool → ℕ → Cpu
four_stored s borrow k =
    set_left (record s { ra0 = s.ra0 + 4; mem = four s.mem s.ra0 s.rd0 }) borrow k

longs_again :
    (s : Cpu) (r : ℕ) {P : Cpu → Type 0}
    → s.ra0 + 4 < 2 ^ 32
    → s.rd0 < 2 ^ 32
    → s.rd2 ≡ r + 4
    → r + 4 < 2 ^ 32
    → Returns memset_020_code 40 (four_stored s false r) P
    → Returns memset_020_code 40 s P
unfolding run
longs_again s r fit value e small (f, t, r', p) = (suc (suc (suc f)), t, ground arith, p)

longs_end :
    (s : Cpu) (r : ℕ) {P : Cpu → Type 0}
    → s.ra0 + 4 < 2 ^ 32
    → s.rd0 < 2 ^ 32
    → s.rd2 ≡ r
    → r < 4
    → Returns memset_020_code 46 (four_stored s true (left r)) P
    → Returns memset_020_code 40 s P
unfolding run
longs_end s r fit value e small (f, t, r', p) = (suc (suc (suc f)), t, ground arith, p)

-- From the longword loop on, with `4 + (4 * q + r)` bytes left.
pub longs :
    (q r n v : ℕ) (s : Cpu)
    → n ≡ 4 + (4 * q + r)
    → s.ra0 + n < 2 ^ 32
    → s.ra1 < 2 ^ 32
    → s.rd2 ≡ 4 * q + r
    → r < 4
    → v < 256
    → s.rd0 ≡ pattern_of v
    → Returns memset_020_code 40 s (Fills v n s)
longs zero r n v s size fits fits' e small byte_small value =
    let s' = four_stored s true (left r) in
    let low : s.rd0 % 2 ^ 8 ≡ v = omega arith in
    let (f, t, run, (p, w)) = tail r s' (omega arith) fits' refl small in
    let stored = ap (λ (x : ℕ). filled (four s.mem s.ra0 s.rd0) (s.ra0 + 4) x r) low in
    let same = ap (λ (x : ℕ). filled (four s.mem s.ra0 x) (s.ra0 + 4) v r) value in
    let total : 4 + r ≡ n = omega arith in
    longs_end s r (omega arith) (omega arith) (omega arith) small (
      f,
      t,
      run,
      (
        p,
        w
            ∙ stored
            ∙ same
            ∙ filled-four s.mem s.ra0 v r byte_small
            ∙ ap (filled s.mem s.ra0 v) total,
      ),
    )
longs (suc q) r n v s size fits fits' e small byte_small value =
    let k = 4 * q + r in
    let (f, t, run, (p, w)) =
      longs q r (4 + k) v (four_stored s false k) refl (omega arith) fits' refl small byte_small
        value in
    let same = ap (λ (x : ℕ). filled (four s.mem s.ra0 x) (s.ra0 + 4) v (4 + k)) value in
    let total : 4 + (4 + k) ≡ n = omega arith in
    longs_again s k (omega arith) (omega arith) (omega arith) (omega arith) (
      f,
      t,
      run,
      (
        p,
        w ∙ same ∙ filled-four s.mem s.ra0 v (4 + k) byte_small ∙ ap (filled s.mem s.ra0 v) total,
      ),
    )

-- Any number of bytes, at least four.
pub rest :
    (n v : ℕ) (s : Cpu)
    → s.ra0 + n < 2 ^ 32
    → s.ra1 < 2 ^ 32
    → 4 ≤ n
    → s.rd2 ≡ n - 4
    → v < 256
    → s.rd0 ≡ pattern_of v
    → Returns memset_020_code 40 s (Fills v n s)
rest n v s fits fits' large e byte_small value =
    longs (n / 4 - 1) (n % 4) n v s (omega arith) fits fits' (omega arith) (omega arith) byte_small
      value

-- Fewer than eight bytes in all.
few_none :
    (s : Cpu) {P : Cpu → Type 0}
    → s.rd2 ≡ 2 ^ 32 - 8
    → Returns memset_020_code 62 (set_left s false (2 ^ 32 - 1)) P
    → Returns memset_020_code 52 s P
unfolding run
few_none s e (f, t, r, p) = (suc (suc f), t, ground arith, p)

few_some :
    (s : Cpu) (k : ℕ) {P : Cpu → Type 0}
    → s.rd2 ≡ 2 ^ 32 - 8 + suc k
    → k < 7
    → Returns memset_020_code 56 (set_left s true k) P
    → Returns memset_020_code 52 s P
unfolding run
few_some s k e small (f, t, r, p) = (suc (suc f), t, ground arith, p)

pub few :
    (n : ℕ) (s : Cpu)
    → s.ra0 + n < 2 ^ 32
    → s.ra1 < 2 ^ 32
    → s.rd2 ≡ 2 ^ 32 - 8 + n
    → n < 8
    → Returns memset_020_code 52 s (Fills (s.rd0 % 2 ^ 8) n s)
few zero s fits fits' e small =
    let nothing = filled-zero s.mem s.ra0 (s.rd0 % 2 ^ 8) in
    few_none s e (ended (set_left s false (2 ^ 32 - 1)) fits' (λ t d m. (d, m ∙ sym nothing)))
few (suc k) s fits fits' e small =
    few_some s k e (omega arith) (bytes k (set_left s true k) fits fits' refl (omega arith))
