-- ===== src/StringAsm/For68020/MemcpyDesc.antt =====
-- `memcpy_desc` for the 68020: the same as `memcpy`, downwards from the ends of the areas.
pub mod Entry
use amiga_dev.Common.{
  ℕ, zero, suc, ◌+◌, ◌-◌, ◌*◌, ◌/◌, ◌%◌, ◌^◌, ◌≤◌, ◌<◌, ◌≡◌, arith, true, false, ltb, leb, ◌==◌,
  Bool, ◌∙◌, sym, refl, ap,
}
use amiga_dev.Machine.{Cpu, flags, byte, word, long, update, half}
use amiga_dev.Machine.Run.{run, Returns, final}
use amiga_dev.StringAsm.Strings.{IsBytes, copied, copied-zero}
use amiga_dev.StringAsm.Copies.{IsBytes-four, four, longword, four-copied_append_back}
use amiga_dev.StringAsm.MemcpyDesc.{Copies, Ends, one_moved}
use amiga_dev.StringAsm.For68020.{memcpy_desc_020_code}
use amiga_dev.StringAsm.For68020.Down.{MovedDown, down_loop}
use amiga_dev.StringAsm.For68020.Words.{two, word_at}
use amiga_dev.StringAsm.For68020.Memcpy.{left, set_left}

ended :
    (s : Cpu) {P : Cpu → Type 0}
    → s.ra0 < 2 ^ 32
    → P (flags long false s.ra0 (record s { rd0 = s.ra0 }))
    → Returns memcpy_desc_020_code 42 s P
unfolding run
ended s fits p = (2, flags long false s.ra0 (record s { rd0 = s.ra0 }), ground arith, p)

tail_none :
    (s : Cpu) {P : Cpu → Type 0}
    → s.rd2 ≡ left 0
    → Returns memcpy_desc_020_code 42 (set_left s false (2 ^ 32 - 1)) P
    → Returns memcpy_desc_020_code 32 s P
unfolding run
tail_none s e (f, t, r, p) = (suc (suc f), t, ground arith, p)

tail_some :
    (s : Cpu) (k : ℕ) {P : Cpu → Type 0}
    → s.rd2 ≡ left (suc k)
    → k < 3
    → Returns memcpy_desc_020_code 36 (set_left s true k) P
    → Returns memcpy_desc_020_code 32 s P
unfolding run
tail_some s k e small (f, t, r, p) = (suc (suc f), t, ground arith, p)

pub tail :
    (r d a : ℕ) (s : Cpu)
    → IsBytes s.mem
    → Ends d a r s
    → s.rd2 ≡ left r
    → r < 4
    → Returns memcpy_desc_020_code 32 s (Copies d a r s)
tail zero d a s bytes ends e small =
    tail_none s e (
      ended (set_left s false (2 ^ 32 - 1)) (omega arith)
        (omega arith, sym (copied-zero s.mem d a)))
tail (suc k) d a s bytes ends e small = tail_some s k e (omega arith) (
    down_loop memcpy_desc_020_code 36 k d a (set_left s true k) (refl, refl) bytes ends refl
      (omega arith) (λ t (low, m). ended t (omega arith) (low, m)))

-- A longword moved.
abbrev four_moved : Cpu → Bool → ℕ → Cpu
four_moved s borrow k =
    set_left
      (record s {
        ra0 = s.ra0 - 4;
        ra1 = s.ra1 - 4;
        mem = four s.mem (s.ra0 - 4) (longword s.mem (s.ra1 - 4));
      })
      borrow k

-- So many bytes lie below the two addresses.
abbrev pub Room : ℕ → Cpu → Type 0
Room n s = (n ≤ s.ra0) × (n ≤ s.ra1) × (s.ra0 < 2 ^ 32) × (s.ra1 < 2 ^ 32)

longs_again :
    (s : Cpu) (r : ℕ) {P : Cpu → Type 0}
    → Room 4 s
    → s.rd2 ≡ r + 4
    → r + 4 < 2 ^ 32
    → Returns memcpy_desc_020_code 26 (four_moved s false r) P
    → Returns memcpy_desc_020_code 26 s P
unfolding run
longs_again s r (lo, lo', hi, hi') e small (f, t, r', p) = (suc (suc (suc f)), t, ground arith, p)

longs_end :
    (s : Cpu) (r : ℕ) {P : Cpu → Type 0}
    → Room 4 s
    → s.rd2 ≡ r
    → r < 4
    → Returns memcpy_desc_020_code 32 (four_moved s true (left r)) P
    → Returns memcpy_desc_020_code 26 s P
unfolding run
longs_end s r (lo, lo', hi, hi') e small (f, t, r', p) = (suc (suc (suc f)), t, ground arith, p)

-- The first longword of a copy of `i + 4` bytes.
first_four :
    (i d a : ℕ) (s : Cpu)
    → IsBytes s.mem
    → Ends d a (i + 4) s
    → copied (four s.mem (s.ra0 - 4) (longword s.mem (s.ra1 - 4))) d a i ≡ copied s.mem d a (i + 4)
first_four i d a s bytes (e0, e1, fits, fits', down) =
    let last0 : s.ra0 - 4 ≡ d + i = omega arith in
    let last1 : s.ra1 - 4 ≡ a + i = omega arith in
    rw (last0, last1) (four-copied_append_back s.mem d a i bytes down)

-- From the longword loop on, with `4 * q + r + 4` bytes left.
longs :
    (q r n d a : ℕ) (s : Cpu)
    → n ≡ 4 * q + r + 4
    → IsBytes s.mem
    → Ends d a n s
    → s.rd2 ≡ 4 * q + r
    → r < 4
    → Returns memcpy_desc_020_code 26 s (Copies d a n s)
longs zero r n d a s size bytes ends e small =
    let s' = four_moved s true (left r) in
    let m' = IsBytes-four s.mem (s.ra0 - 4) (s.ra1 - 4) bytes in
    let (f, t, run, (p, w)) = tail r d a s' m' (omega arith) refl small in
    let all = first_four r d a s bytes (omega arith) in
    let total : r + 4 ≡ n = omega arith in
    longs_end s r (omega arith) (omega arith) small
      (f, t, run, (p, w ∙ all ∙ ap (copied s.mem d a) total))
longs (suc q) r n d a s size bytes ends e small =
    let k = 4 * q + r in
    let m' = IsBytes-four s.mem (s.ra0 - 4) (s.ra1 - 4) bytes in
    let (f, t, run, (p, w)) =
      longs q r (k + 4) d a (four_moved s false k) refl m' (omega arith) refl small in
    let all = first_four (k + 4) d a s bytes (omega arith) in
    let total : k + 4 + 4 ≡ n = omega arith in
    longs_again s k (omega arith) (omega arith) (omega arith)
      (f, t, run, (p, w ∙ all ∙ ap (copied s.mem d a) total))

-- At least a longword.
pub rest :
    (n d a : ℕ) (s : Cpu)
    → IsBytes s.mem
    → Ends d a n s
    → 4 ≤ n
    → s.rd2 ≡ n - 4
    → Returns memcpy_desc_020_code 26 s (Copies d a n s)
rest n d a s bytes ends large e =
    longs (n / 4 - 1) (n % 4) n d a s (omega arith) bytes ends (omega arith) (omega arith)
