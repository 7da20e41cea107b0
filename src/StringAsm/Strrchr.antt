-- ===== src/StringAsm/Strrchr.antt =====
-- `strrchr` finds the last place of a byte.
use amiga_dev.Common.{
  ℕ, suc, ◌+◌, ◌%◌, ◌^◌, ◌≤◌, ◌<◌, ◌≡◌, ◌≢◌, ◌⊎◌, List, [], ◌∷◌, length, arith, true, false, ltb,
  ◌==◌, Bool-cases, ==→eq, inl, inr, refl, if◌then◌else◌,
}
use amiga_dev.Machine.{Cpu, Memory, flags, byte, long, minus}
use amiga_dev.Machine.Run.{run, Returns, final}
use amiga_dev.StringAsm.{strrchr_code}
use amiga_dev.StringAsm.Strings.{CString}

-- `r` is the last address from `a` to `a + n` with byte `c`, or `z` if there is none.
abbrev pub IsLast : Memory → ℕ → ℕ → ℕ → ℕ → ℕ → Type 0
IsLast m c a n z r =
    ((r ≡ z) × ((j : ℕ) → a ≤ j → j ≤ a + n → m j ≢ c))
    ⊎ ((a ≤ r) × (r ≤ a + n) × (m r ≡ c) × ((j : ℕ) → r < j → j ≤ a + n → m j ≢ c))

IsLast-hit :
    (m : Memory) (c a n z r : ℕ) → m a ≡ c → IsLast m c (a + 1) n a r → IsLast m c a (suc n) z r
IsLast-hit m c a n z r hit (inl (e, no_more)) =
    inr (omega arith, omega arith, rw e hit, λ j lt le. no_more j (omega arith) (omega arith))
IsLast-hit m c a n z r hit (inr (lo, hi, at, no_more)) =
    inr (omega arith, omega arith, at, λ j lt le. no_more j lt (omega arith))

IsLast-miss :
    (m : Memory) (c a n z r : ℕ) → m a ≢ c → IsLast m c (a + 1) n z r → IsLast m c a (suc n) z r
IsLast-miss m c a n z r miss (inl (e, no_more)) = inl (e, λ j lo hi. ground (arith, no_more j))
IsLast-miss m c a n z r miss (inr (lo, hi, at, no_more)) =
    inr (omega arith, omega arith, at, λ j lt le. no_more j lt (omega arith))

IsLast-one : (m : Memory) (c a z : ℕ) → IsLast m c a 0 z (if m a == c then a else z)
IsLast-one m c a z = elim (Bool-cases (m a == c)) [
  | inl hit ↦ rw hit (inr (omega arith, omega arith, ground arith, λ j lt le. absurd (omega arith)))
  | inr miss ↦ rw miss (inl (refl, λ j lo hi. ground arith))
]

-- The states in front of the test for the terminator.
abbrev hit_state : Cpu → Cpu
hit_state s = flags long false s.ra0 (record s { rd0 = s.ra0 })

abbrev miss_state : Cpu → Cpu
miss_state s =
    let x = s.rd1 % 2 ^ 8 in flags byte (ltb x (s.mem s.ra0)) (minus byte x (s.mem s.ra0)) s

hit_step :
    (s : Cpu) {P : Cpu → Type 0}
    → s.mem s.ra0 ≡ s.rd1 % 2 ^ 8
    → s.ra0 < 2 ^ 32
    → Returns strrchr_code 8 (hit_state s) P
    → Returns strrchr_code 2 s P
unfolding run
hit_step s hit fits (f, t, r, p) =
    let zero_flag : (minus byte (s.rd1 % 2 ^ 8) (s.mem s.ra0) == 0) ≡ true = ground arith in
    (suc (suc (suc f)), t, ground arith, p)

miss_step :
    (s : Cpu) {P : Cpu → Type 0}
    → s.mem s.ra0 ≢ s.rd1 % 2 ^ 8
    → s.mem s.ra0 < 256
    → Returns strrchr_code 8 (miss_state s) P
    → Returns strrchr_code 2 s P
unfolding run
miss_step s miss small (f, t, r, p) =
    let zero_flag : (minus byte (s.rd1 % 2 ^ 8) (s.mem s.ra0) == 0) ≡ false = ground arith in
    (suc (suc f), t, ground arith, p)

abbrev looked : Cpu → Cpu
looked s = flags byte false (s.mem s.ra0) (record s { ra0 = s.ra0 + 1 })

go_on :
    (s : Cpu) {P : Cpu → Type 0}
    → 0 < s.mem s.ra0
    → s.ra0 + 1 < 2 ^ 32
    → Returns strrchr_code 2 (looked s) P
    → Returns strrchr_code 8 s P
unfolding run
go_on s pos fits (f, t, r, p) =
    let going : (s.mem s.ra0 == 0) ≡ false = ground arith in (suc (suc f), t, ground arith, p)

stop :
    (s : Cpu) → s.mem s.ra0 ≡ 0 → Returns strrchr_code 8 s (λ t. (t.rd0 ≡ s.rd0) × (t.mem ≡ s.mem))
unfolding run
stop s h = (3, final s (run strrchr_code 3 8 s), ground arith, (ground arith, ground arith))

abbrev Found : ℕ → Cpu → Cpu → Type 0
Found n s t = IsLast s.mem (s.rd1 % 2 ^ 8) s.ra0 n s.rd0 t.rd0 × (t.mem ≡ s.mem)

loop :
    (cs : List ℕ) (s : Cpu)
    → CString s.mem s.ra0 cs
    → s.ra0 + length cs + 1 < 2 ^ 32
    → Returns strrchr_code 2 s (Found (length cs) s)
loop [] s h fits =
    let one = IsLast-one s.mem (s.rd1 % 2 ^ 8) s.ra0 s.rd0 in
    elim (Bool-cases (s.mem s.ra0 == s.rd1 % 2 ^ 8)) [
      | inl hit ↦
          let (f, t, r, (p, q)) = stop (hit_state s) h in
          hit_step s (==→eq _ _ hit) (omega arith) (f, t, r, (rw p (rw hit at one), q))
      | inr miss ↦
          let (f, t, r, (p, q)) = stop (miss_state s) h in
          miss_step s (ground arith) (omega arith) (f, t, r, (rw p (rw miss at one), q))
    ]
loop (c ∷ cs) s (e, lo, hi, h) fits = elim (Bool-cases (s.mem s.ra0 == s.rd1 % 2 ^ 8)) [
  | inl hit ↦
      let (f, t, r, (p, q)) = loop cs (looked (hit_state s)) h (omega arith) in
      let found = IsLast-hit s.mem (s.rd1 % 2 ^ 8) s.ra0 (length cs) s.rd0 t.rd0 in
      let same = ==→eq _ _ hit in
      hit_step s same (omega arith)
        (go_on (hit_state s) (omega arith) (omega arith) (f, t, r, (found same p, q)))
  | inr miss ↦
      let (f, t, r, (p, q)) = loop cs (looked (miss_state s)) h (omega arith) in
      let found = IsLast-miss s.mem (s.rd1 % 2 ^ 8) s.ra0 (length cs) s.rd0 t.rd0 in
      let other : s.mem s.ra0 ≢ s.rd1 % 2 ^ 8 = ground arith in
      miss_step s other (omega arith)
        (go_on (miss_state s) (omega arith) (omega arith) (f, t, r, (found other p, q)))
]

abbrev entered : Cpu → Cpu
entered s = flags long false 0 (record s { rd0 = 0 })

-- For the byte `c` in the low part of `d1`, `strrchr` returns the last address of the string, its
-- terminator included, that holds `c`, or 0 when no such address holds it; it writes nothing.
pub strrchr-IsLast :
    (cs : List ℕ) (s : Cpu)
    → CString s.mem s.ra0 cs
    → s.ra0 + length cs + 1 < 2 ^ 32
    → Returns strrchr_code 0 s
        (λ t. IsLast s.mem (s.rd1 % 2 ^ 8) s.ra0 (length cs) 0 t.rd0 × (t.mem ≡ s.mem))
unfolding run
strrchr-IsLast cs s h fits = let (f, t, r, p) = loop cs (entered s) h fits in (suc f, t, r, p)
