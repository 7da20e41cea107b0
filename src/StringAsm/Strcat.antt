-- ===== src/StringAsm/Strcat.antt =====
-- `strcat` appends a string to another.
use amiga_dev.Common.{
  ℕ, suc, ◌+◌, ◌^◌, ◌<◌, ◌≡◌, List, [], ◌∷◌, ◌++◌, length, arith, false, ◌∙◌, sym,
}
use amiga_dev.Machine.{Cpu, flags, set_d, d0, byte, long, wrap, update}
use native.Mathlib.Nat.{add-zero}
use amiga_dev.Machine.Run.{run, Returns, final}
use amiga_dev.StringAsm.{strcat_code}
use amiga_dev.StringAsm.Strings.{
  CString, CString-update, CString-copied, CString-append, Upwards, copied, copied-suc, copied-zero,
}

abbrev moved : Cpu → Cpu
moved s =
    flags byte false (s.mem s.ra1)
      (record s { ra0 = s.ra0 + 1; ra1 = s.ra1 + 1; mem = update s.mem s.ra0 (s.mem s.ra1) })

-- The second loop copies.
copy_loop :
    (cs : List ℕ) (s : Cpu)
    → CString s.mem s.ra1 cs
    → Upwards s.ra0 s.ra1 (suc (length cs))
    → s.ra0 + length cs + 1 < 2 ^ 32
    → s.ra1 + length cs + 1 < 2 ^ 32
    → Returns strcat_code 8 s
        (λ t. (t.rd0 ≡ s.rd0) × (t.mem ≡ copied s.mem s.ra0 s.ra1 (suc (length cs))))
unfolding run
copy_loop [] s h up fits fits' =
    let one = copied-suc s.mem s.ra0 s.ra1 0 up in
    let none_left = copied-zero (update s.mem s.ra0 (s.mem s.ra1)) (s.ra0 + 1) (s.ra1 + 1) in
    let wrote : (final s (run strcat_code 3 8 s)).mem ≡ update s.mem s.ra0 (s.mem s.ra1) =
      ground arith in
    (3, final s (run strcat_code 3 8 s), ground arith, (ground arith, wrote ∙ sym none_left ∙ one))
copy_loop (c ∷ cs) s (e, lo, hi, h) up fits fits' =
    let h' = CString-update cs s.mem (s.ra1 + 1) s.ra0 (s.mem s.ra1) (omega arith) h in
    let (f, t, r, (p, q)) = copy_loop cs (moved s) h' (omega arith) (omega arith) (omega arith) in
    (suc (suc f), t, ground arith, (p, q ∙ copied-suc s.mem s.ra0 s.ra1 (suc (length cs)) up))

abbrev scanned : Cpu → Cpu
scanned s = flags byte false (s.mem s.ra0) (record s { ra0 = s.ra0 + 1 })

-- The state behind the first loop and the step back, with the terminator at `a0`.
abbrev at_end : Cpu → Cpu
at_end s = flags byte false (s.mem s.ra0) s

abbrev Appended : List ℕ → List ℕ → ℕ → Cpu → Cpu → Type 0
Appended xs cs d s t =
    (t.rd0 ≡ s.rd0) × (t.mem ≡ copied s.mem (d + length xs) s.ra1 (suc (length cs)))

-- The first loop finds the terminator of the destination.
scan_loop :
    (xs cs : List ℕ) (s : Cpu)
    → CString s.mem s.ra0 xs
    → CString s.mem s.ra1 cs
    → Upwards (s.ra0 + length xs) s.ra1 (suc (length cs))
    → s.ra0 + length xs + length cs + 1 < 2 ^ 32
    → s.ra1 + length cs + 1 < 2 ^ 32
    → Returns strcat_code 2 s (Appended xs cs s.ra0 s)
unfolding run
scan_loop [] cs s h h' up fits fits' =
    let (f, t, r, (p, q)) = copy_loop cs (at_end s) h' (omega arith) (omega arith) (omega arith) in
    (suc (suc (suc f)), t, ground arith, (p, rw add-zero q))
scan_loop (x ∷ xs) cs s (e, lo, hi, h) h' up fits fits' =
    let next : s.ra0 + 1 + length xs ≡ s.ra0 + length (x ∷ xs) = omega arith in
    let (f, t, r, (p, q)) =
      scan_loop xs cs (scanned s) h h' (rw next up) (omega arith) (omega arith) in
    (suc (suc f), t, ground arith, (p, rw (← next) q))

abbrev entered : Cpu → Cpu
entered s = flags long false (wrap s.ra0) (set_d d0 (wrap (wrap s.ra0)) s)

-- When the copy does not start inside the source string, `strcat` returns the destination, where
-- the two strings now stand joined; no byte outside the copy has changed.
pub strcat-append :
    (xs cs : List ℕ) (s : Cpu)
    → CString s.mem s.ra0 xs
    → CString s.mem s.ra1 cs
    → Upwards (s.ra0 + length xs) s.ra1 (suc (length cs))
    → s.ra0 + length xs + length cs + 1 < 2 ^ 32
    → s.ra1 + length cs + 1 < 2 ^ 32
    → Returns strcat_code 0 s (λ t.
      (t.rd0 ≡ s.ra0)
      × (t.mem ≡ copied s.mem (s.ra0 + length xs) s.ra1 (suc (length cs)))
      × CString t.mem s.ra0 (xs ++ cs))
unfolding run
strcat-append xs cs s h h' up fits fits' =
    let (f, t, r, (p, q)) = scan_loop xs cs (entered s) h h' up fits fits' in
    let end = s.ra0 + length xs in
    let tail = CString-copied cs s.mem end s.ra1 h' in
    let joined =
      CString-append xs cs s.mem (copied s.mem end s.ra1 (suc (length cs))) s.ra0 h
        (λ i lt. ground arith) tail in
    (suc f, t, r, (omega arith, q, rw q joined))
