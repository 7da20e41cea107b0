-- ===== src/StringAsm/Strcpy.antt =====
-- `strcpy` copies a string and its terminator.
use amiga_dev.Common.{ℕ, suc, ◌+◌, ◌^◌, ◌<◌, ◌≡◌, List, [], ◌∷◌, length, arith, false, ◌∙◌, sym}
use amiga_dev.Machine.{Cpu, flags, set_d, d0, byte, long, wrap, update}
use amiga_dev.Machine.Run.{run, Returns, final}
use amiga_dev.StringAsm.{strcpy_code}
use amiga_dev.StringAsm.Strings.{
  CString, CString-update, CString-copied, Upwards, copied, copied-suc, copied-zero,
}

abbrev moved : Cpu → Cpu
moved s =
    flags byte false (s.mem s.ra1)
      (record s { ra0 = s.ra0 + 1; ra1 = s.ra1 + 1; mem = update s.mem s.ra0 (s.mem s.ra1) })

loop :
    (cs : List ℕ) (s : Cpu)
    → CString s.mem s.ra1 cs
    → Upwards s.ra0 s.ra1 (suc (length cs))
    → s.ra0 + length cs + 1 < 2 ^ 32
    → s.ra1 + length cs + 1 < 2 ^ 32
    → Returns strcpy_code 2 s
        (λ t. (t.rd0 ≡ s.rd0) × (t.mem ≡ copied s.mem s.ra0 s.ra1 (suc (length cs))))
unfolding run
loop [] s h up fits fits' =
    let one = copied-suc s.mem s.ra0 s.ra1 0 up in
    let none_left = copied-zero (update s.mem s.ra0 (s.mem s.ra1)) (s.ra0 + 1) (s.ra1 + 1) in
    let wrote : (final s (run strcpy_code 3 2 s)).mem ≡ update s.mem s.ra0 (s.mem s.ra1) =
      ground arith in
    (3, final s (run strcpy_code 3 2 s), ground arith, (ground arith, wrote ∙ sym none_left ∙ one))
loop (c ∷ cs) s (e, lo, hi, h) up fits fits' =
    let h' = CString-update cs s.mem (s.ra1 + 1) s.ra0 (s.mem s.ra1) (omega arith) h in
    let (f, t, r, (p, q)) = loop cs (moved s) h' (omega arith) (omega arith) (omega arith) in
    (suc (suc f), t, ground arith, (p, q ∙ copied-suc s.mem s.ra0 s.ra1 (suc (length cs)) up))

abbrev entered : Cpu → Cpu
entered s = flags long false (wrap s.ra0) (set_d d0 (wrap (wrap s.ra0)) s)

-- When the destination does not start inside the source string, `strcpy` returns the destination,
-- where the string now stands; no other byte has changed.
pub strcpy-copied :
    (cs : List ℕ) (s : Cpu)
    → CString s.mem s.ra1 cs
    → Upwards s.ra0 s.ra1 (suc (length cs))
    → s.ra0 + length cs + 1 < 2 ^ 32
    → s.ra1 + length cs + 1 < 2 ^ 32
    → Returns strcpy_code 0 s (λ t.
      (t.rd0 ≡ s.ra0)
      × (t.mem ≡ copied s.mem s.ra0 s.ra1 (suc (length cs)))
      × CString t.mem s.ra0 cs)
unfolding run
strcpy-copied cs s h up fits fits' =
    let (f, t, r, (p, q)) = loop cs (entered s) h up fits fits' in
    (suc f, t, r, (omega arith, q, rw q (CString-copied cs s.mem s.ra0 s.ra1 h)))
