-- ===== src/StringAsm/Strncpy.antt =====
-- `strncpy` copies a string and fills up with zeros.
use mathlib.Core.Path.{fun_ext}
use amiga_dev.Common.{
  ℕ, zero, suc, ◌+◌, ◌-◌, ◌^◌, ◌≤◌, ◌<◌, ◌≡◌, ◌⊎◌, List, [], ◌∷◌, length, arith, false, ◌==◌, ltb,
  leb, ◌&&◌, if◌then◌else◌, ◌∙◌, refl, sym,
}
use amiga_dev.Machine.{Cpu, Memory, flags, long, update, wrap}
use amiga_dev.Machine.Run.{run, Returns, final}
use amiga_dev.StringAsm.{strncpy_code}
use amiga_dev.StringAsm.Strings.{CString, CString-update}

-- `n` bytes at `d`: the string of length `len` at `s`, cut off or filled up with zeros.
abbrev pub padded : Memory → ℕ → ℕ → ℕ → ℕ → Memory
padded m d s len n j =
    if leb d j && ltb j (d + n) then (if ltb (j - d) len then m (s + (j - d)) else 0) else m j

padded-zero : (m : Memory) (d s len : ℕ) → padded m d s len 0 ≡ m
padded-zero m d s len = fun_ext λ j. ground arith

padded-suc :
    (m : Memory) (d s len n : ℕ)
    → (d + suc n ≤ s) ⊎ (s + suc len < d)
    → padded (update m d (m s)) (d + 1) (s + 1) len n ≡ padded m d s (suc len) (suc n)
padded-suc m d s len n apart = fun_ext λ j. ground arith

padded-end :
    (m : Memory) (d s n : ℕ)
    → (d + suc n ≤ s) ⊎ (s < d)
    → m s ≡ 0
    → padded (update m d 0) (d + 1) s 0 n ≡ padded m d s 0 (suc n)
padded-end m d s n apart h = fun_ext λ j. ground arith

-- A round of the loop behind the count.
abbrev copied_one : ℕ → ℕ → ℕ → Cpu → Cpu
copied_one k src v s =
    flags long false k
      (record s { ra0 = s.ra0 + 1; ra1 = src; rd1 = k; mem = update s.mem s.ra0 v })

last_byte :
    (s : Cpu)
    → 0 < s.mem s.ra1
    → s.mem s.ra1 < 256
    → s.rd1 ≡ 0
    → Returns strncpy_code 4 s (λ t. (t.rd0 ≡ s.rd0) × (t.mem ≡ update s.mem s.ra0 (s.mem s.ra1)))
unfolding run
last_byte s pos small e =
    let going : (s.mem s.ra1 == 0) ≡ false = ground arith in
    let t = final s (run strncpy_code 6 4 s) in (6, t, ground arith, (ground arith, ground arith))

-- The loop stands at its test, with the count already lowered and found not negative: `suc k`
-- bytes are left to write.
loop :
    (k : ℕ) (cs : List ℕ) (s : Cpu)
    → CString s.mem s.ra1 cs
    → (s.ra0 + suc k ≤ s.ra1) ⊎ (s.ra1 + length cs < s.ra0)
    → s.ra0 + suc k < 2 ^ 32
    → s.ra1 + length cs < 2 ^ 32
    → s.rd1 ≡ k
    → k < 2 ^ 31
    → Returns strncpy_code 4 s
        (λ t. (t.rd0 ≡ s.rd0) × (t.mem ≡ padded s.mem s.ra0 s.ra1 (length cs) (suc k)))
unfolding run
loop zero [] s h apart fits fits' e small =
    let t = final s (run strncpy_code 6 4 s) in
    let wrote : t.mem ≡ update s.mem s.ra0 0 = ground arith in
    let all = padded-end s.mem s.ra0 s.ra1 0 (omega arith) h in
    let start = padded-zero (update s.mem s.ra0 0) (s.ra0 + 1) s.ra1 0 in
    (6, t, ground arith, (ground arith, wrote ∙ sym start ∙ all))
loop zero (c ∷ cs) s (ec, lo, hi, h) apart fits fits' e small =
    let all = padded-suc s.mem s.ra0 s.ra1 (length cs) 0 (omega arith) in
    let start =
      padded-zero (update s.mem s.ra0 (s.mem s.ra1)) (s.ra0 + 1) (s.ra1 + 1) (length cs) in
    let (f, t, r, (p, q)) = last_byte s (omega arith) (omega arith) e in
    (f, t, r, (p, q ∙ sym start ∙ all))
loop (suc k) [] s h apart fits fits' e small =
    let still : update s.mem s.ra0 0 s.ra1 ≡ 0 = ground arith in
    let all = padded-end s.mem s.ra0 s.ra1 (suc k) (omega arith) h in
    let (f, t, r, (p, q)) =
      loop k [] (copied_one k s.ra1 0 s) still (omega arith) (omega arith) (omega arith) refl
        (omega arith) in
    (suc (suc (suc (suc f))), t, ground arith, (p, q ∙ all))
loop (suc k) (c ∷ cs) s (ec, lo, hi, h) apart fits fits' e small =
    let h' = CString-update cs s.mem (s.ra1 + 1) s.ra0 (s.mem s.ra1) (omega arith) h in
    let all = padded-suc s.mem s.ra0 s.ra1 (length cs) (suc k) (omega arith) in
    let (f, t, r, (p, q)) =
      loop k cs (copied_one k (s.ra1 + 1) (s.mem s.ra1) s) h' (omega arith) (omega arith)
        (omega arith) refl (omega arith) in
    (suc (suc (suc (suc (suc f)))), t, ground arith, (p, q ∙ all))

abbrev entered : Cpu → Cpu
entered s = flags long false (wrap s.ra0) (record s { rd0 = wrap (wrap s.ra0) })

-- The first test: the count is lowered before anything is written.
enter_suc :
    (s : Cpu) (k : ℕ) {P : Cpu → Type 0}
    → s.rd1 ≡ suc k
    → k < 2 ^ 31
    → Returns strncpy_code 4 (flags long false k (record (entered s) { rd1 = k })) P
    → Returns strncpy_code 0 s P
unfolding run
enter_suc s k e small (f, t, r, p) = (suc (suc (suc (suc f))), t, ground arith, p)

-- With a count of at most 2^31 in `d1` and an area apart from the source string, `strncpy` returns
-- the destination and writes exactly the count of bytes there: the string, cut off or filled up
-- with zeros.
pub strncpy-padded :
    (n : ℕ) (cs : List ℕ) (s : Cpu)
    → CString s.mem s.ra1 cs
    → (s.ra0 + n ≤ s.ra1) ⊎ (s.ra1 + length cs < s.ra0)
    → s.ra0 + n < 2 ^ 32
    → s.ra1 + length cs < 2 ^ 32
    → s.rd1 ≡ n
    → n ≤ 2 ^ 31
    → Returns strncpy_code 0 s
        (λ t. (t.rd0 ≡ s.ra0) × (t.mem ≡ padded s.mem s.ra0 s.ra1 (length cs) n))
unfolding run
strncpy-padded zero cs s h apart fits fits' e small =
    let t = final s (run strncpy_code 5 0 s) in
    let same : t.mem ≡ s.mem = ground arith in
    (5, t, ground arith, (ground arith, same ∙ sym (padded-zero s.mem s.ra0 s.ra1 (length cs))))
strncpy-padded (suc k) cs s h apart fits fits' e small =
    let s' = flags long false k (record (entered s) { rd1 = k }) in
    let (f, t, r, (p, q)) = loop k cs s' h apart fits fits' refl (omega arith) in
    enter_suc s k e (omega arith) (f, t, r, (omega arith, q))
