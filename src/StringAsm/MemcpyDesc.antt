-- ===== src/StringAsm/MemcpyDesc.antt =====
-- `memcpy_desc` for the 68000: the same as `memcpy`, downwards from the ends of the areas.
pub mod Loops
pub mod Entry
use native.Mathlib.Nat.{add-zero}
use amiga_dev.Common.{
  ℕ, zero, suc, ◌+◌, ◌-◌, ◌*◌, ◌/◌, ◌%◌, ◌^◌, ◌≤◌, ◌<◌, ◌≡◌, ◌⊎◌, arith, true, false, ltb, leb,
  ◌==◌, if◌then◌else◌, inl, inr, ◌∙◌, sym, refl, ap,
}
use amiga_dev.Machine.{Cpu, Memory, flags, byte, word, long, minus, update, wrap}
use amiga_dev.Machine.Run.{run, Returns, final}
use amiga_dev.StringAsm.{memcpy_desc_code}
use amiga_dev.StringAsm.Strings.{IsBytes, copied, copied-zero}
use amiga_dev.StringAsm.Copies.{IsBytes-update, Downwards, copied-last}

-- What a block leaves: `n` bytes copied from `a` to `d`, and `d` as the result.
abbrev pub Copies : ℕ → ℕ → ℕ → Cpu → Cpu → Type 0
Copies d a n s t = (t.rd0 ≡ d) × (t.mem ≡ copied s.mem d a n)

-- The address registers point behind `n` bytes at `d` and at `a`.
abbrev pub Ends : ℕ → ℕ → ℕ → Cpu → Type 0
Ends d a n s =
    (s.ra0 ≡ d + n) × (s.ra1 ≡ a + n) × (d + n < 2 ^ 32) × (a + n < 2 ^ 32) × Downwards d a n

abbrev pub one_moved : Cpu → ℕ → Cpu
one_moved s k = flags byte false (s.mem (s.ra1 - 1)) (record s {
  rd2 = k;
  ra0 = s.ra0 - 1;
  ra1 = s.ra1 - 1;
  mem = update s.mem (s.ra0 - 1) (s.mem (s.ra1 - 1));
})

dbf_again :
    (s : Cpu) (k d a : ℕ) {P : Cpu → Type 0}
    → IsBytes s.mem
    → Ends d a (suc (suc k)) s
    → s.rd2 ≡ suc k
    → suc k < 2 ^ 16
    → Returns memcpy_desc_code 60 (one_moved s k) P
    → Returns memcpy_desc_code 60 s P
unfolding run
dbf_again s k d a bytes (e0, e1, fits, fits', down) e small (f, t, r, p) =
    let fit = bytes (s.ra1 - 1) in (suc (suc f), t, ground arith, p)

dbf_stops :
    (s : Cpu) (d a : ℕ)
    → IsBytes s.mem
    → Ends d a 1 s
    → s.rd2 ≡ 0
    → Returns memcpy_desc_code 60 s (λ t. (t.rd0 ≡ d) × (t.mem ≡ update s.mem d (s.mem a)))
unfolding run
dbf_stops s d a bytes (e0, e1, fits, fits', down) e =
    let fit = bytes a in
    let t = final s (run memcpy_desc_code 4 60 s) in
    (4, t, ground arith, (ground arith, ground arith))

dbf_loop :
    (k d a : ℕ) (s : Cpu)
    → IsBytes s.mem
    → Ends d a (suc k) s
    → s.rd2 ≡ k
    → k < 2 ^ 16
    → Returns memcpy_desc_code 60 s (Copies d a (suc k) s)
dbf_loop zero d a s bytes ends e small =
    let (f, t, r, (p, q)) = dbf_stops s d a bytes ends e in
    let start = copied-zero (update s.mem d (s.mem a)) d a in
    let all = copied-last s.mem d a 0 (omega arith) in
    (f, t, r, (p, q ∙ sym start ∙ rw (add-zero, add-zero) at all))
dbf_loop (suc k) d a s bytes ends e small =
    let bytes' = IsBytes-update s.mem (s.ra0 - 1) (s.mem (s.ra1 - 1)) bytes (bytes (s.ra1 - 1)) in
    let (f, t, r, (p, q)) =
      dbf_loop k d a (one_moved s k) bytes' (omega arith) refl (omega arith) in
    let last0 : s.ra0 - 1 ≡ d + suc k = omega arith in
    let last1 : s.ra1 - 1 ≡ a + suc k = omega arith in
    let all = copied-last s.mem d a (suc k) (omega arith) in
    dbf_again s k d a bytes ends e small (f, t, r, (p, q ∙ rw (last0, last1) all))

tail_some :
    (s : Cpu) (k : ℕ) {P : Cpu → Type 0}
    → s.rd2 ≡ suc k
    → suc k < 2 ^ 16
    → Returns memcpy_desc_code 60 (flags word false k (record s { rd2 = k })) P
    → Returns memcpy_desc_code 56 s P
unfolding run
tail_some s k e small (f, t, r, p) = (suc (suc f), t, ground arith, p)

tail_none :
    (s : Cpu)
    → s.rd2 ≡ 0
    → s.ra0 < 2 ^ 32
    → Returns memcpy_desc_code 56 s (λ t. (t.rd0 ≡ s.ra0) × (t.mem ≡ s.mem))
unfolding run
tail_none s e fits =
    let t = final s (run memcpy_desc_code 4 56 s) in
    (4, t, ground arith, (ground arith, ground arith))

-- The tail: the low word of `d2` counts the bytes.
pub tail :
    (n d a : ℕ) (s : Cpu)
    → IsBytes s.mem
    → Ends d a n s
    → s.rd2 ≡ n
    → n < 2 ^ 16
    → Returns memcpy_desc_code 56 s (Copies d a n s)
tail zero d a s bytes ends e small =
    let (f, t, r, (p, q)) = tail_none s e (omega arith) in
    (f, t, r, (omega arith, q ∙ sym (copied-zero s.mem d a)))
tail (suc k) d a s bytes ends e small =
    tail_some s k e small
      (dbf_loop k d a (flags word false k (record s { rd2 = k })) bytes ends refl (omega arith))
