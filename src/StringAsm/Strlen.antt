-- ===== src/StringAsm/Strlen.antt =====
-- `strlen` counts the bytes before the terminator.
use amiga_dev.Common.{ℕ, suc, ◌+◌, ◌-◌, ◌^◌, ◌≤◌, ◌<◌, ◌≡◌, List, [], ◌∷◌, length, arith, false}
use amiga_dev.Machine.{Cpu, flags, set_a, set_d, a0, d0, byte, long, wrap, wrap-eq_of_lt}
use amiga_dev.Machine.Run.{run, Returns, final}
use amiga_dev.StringAsm.{strlen_code}
use amiga_dev.StringAsm.Strings.{CString}

abbrev scanned : Cpu → Cpu
scanned s = flags byte false (s.mem s.ra0) (set_a a0 (wrap (s.ra0 + 1)) s)

loop :
    (cs : List ℕ) (s : Cpu)
    → CString s.mem s.ra0 cs
    → s.ra0 + length cs + 1 < 2 ^ 32
    → s.rd0 ≤ s.ra0
    → Returns strlen_code 2 s (λ t. (t.rd0 ≡ s.ra0 - s.rd0 + length cs) × (t.mem ≡ s.mem))
unfolding run
loop [] s h fits le =
    (5, final s (run strlen_code 5 2 s), ground arith, (ground arith, ground arith))
loop (c ∷ cs) s (e, lo, hi, h) fits le =
    let next = wrap-eq_of_lt (s.ra0 + 1) (omega arith) in
    let (f, t, r, (p, q)) = loop cs (scanned s) (rw next h) (omega arith) (omega arith) in
    (suc (suc f), t, ground arith, (ground arith, q))

abbrev entered : Cpu → Cpu
entered s = flags long false (wrap s.ra0) (set_d d0 (wrap (wrap s.ra0)) s)

-- On a string at `a0` that ends before the end of memory, `strlen` returns its length in `d0`
-- and writes nothing.
pub strlen-length :
    (cs : List ℕ) (s : Cpu)
    → CString s.mem s.ra0 cs
    → s.ra0 + length cs + 1 < 2 ^ 32
    → Returns strlen_code 0 s (λ t. (t.rd0 ≡ length cs) × (t.mem ≡ s.mem))
unfolding run
strlen-length cs s h fits =
    let (f, t, r, (p, q)) = loop cs (entered s) h fits (omega arith) in
    (suc f, t, r, (omega arith, q))
