-- ===== src/StringAsm/Tests.antt =====
-- The routines at a small memory: the theorems at concrete inputs, and runs.
use amiga_dev.Common.{
  ℕ, ◌%◌, ◌^◌, ◌≡◌, refl, ◌-◌, List, [], ◌∷◌, ◌++◌, take, arith, false, ◌==◌, if◌then◌else◌,
}
use amiga_dev.Machine.{Cpu, Memory}
use amiga_dev.Machine.Run.{run, final, Returns}
use amiga_dev.StringAsm.{
  strlen_code, strcpy_code, strcat_code, strcmp_code, strncmp_code, strrchr_code, strncpy_code,
  memcpy_code, memset_code, memmove_call,
}
use amiga_dev.StringAsm.Strings.{CString, IsBytes, copied}
use amiga_dev.StringAsm.Order.{Orders}
use amiga_dev.StringAsm.Strlen.{strlen-length}
use amiga_dev.StringAsm.Strcpy.{strcpy-copied}
use amiga_dev.StringAsm.Strcat.{strcat-append}
use amiga_dev.StringAsm.Strcmp.{strcmp-Orders}
use amiga_dev.StringAsm.Strncmp.{strncmp-Orders}
use amiga_dev.StringAsm.Strrchr.{IsLast, strrchr-IsLast}
use amiga_dev.StringAsm.Strncpy.{padded, strncpy-padded}
use amiga_dev.StringAsm.Memcpy.Entry.{memcpy-copied}
use amiga_dev.StringAsm.Memmove.{passed, memmove-copied}
use amiga_dev.StringAsm.Memset.{filled}
use amiga_dev.StringAsm.Memset.Entry.{memset-filled}

-- "ab" at 100, "ac" at 200, and zeros elsewhere.
abbrev words : Memory
words p =
    if p == 100
    then 97
    else if p == 101
    then 98
    else if p == 200
    then 97
    else if p == 201
    then 99
    else 0

abbrev ab : List ℕ
ab = 97 ∷ 98 ∷ []

abbrev ac : List ℕ
ac = 97 ∷ 99 ∷ []

abbrev start : ℕ → ℕ → ℕ → ℕ → ℕ → Cpu
start d0 d1 d2 a0 a1 = record {
  rd0 = d0;
  rd1 = d1;
  rd2 = d2;
  ra0 = a0;
  ra1 = a1;
  z = false;
  n = false;
  c = false;
  mem = words;
}

ab_at : CString words 100 ab
ab_at = ground arith

ac_at : CString words 200 ac
ac_at = ground arith

words-IsBytes : IsBytes words
words-IsBytes = λ p. ground arith

strlen-length_example :
    Returns strlen_code 0 (start 7 7 7 100 0) (λ t. (t.rd0 ≡ 2) × (t.mem ≡ words))
strlen-length_example = strlen-length ab (start 7 7 7 100 0) ab_at (omega arith)

strcpy-copied_example :
    Returns strcpy_code 0
      (start 0 0 0 300 100)
      (λ t. (t.rd0 ≡ 300) × (t.mem ≡ copied words 300 100 3) × CString t.mem 300 ab)
strcpy-copied_example =
    strcpy-copied ab (start 0 0 0 300 100) ab_at (omega arith) (omega arith) (omega arith)

strcat-append_example :
    Returns strcat_code 0
      (start 0 0 0 100 200)
      (λ t. (t.rd0 ≡ 100) × (t.mem ≡ copied words 102 200 3) × CString t.mem 100 (ab ++ ac))
strcat-append_example =
    strcat-append ab ac (start 0 0 0 100 200) ab_at ac_at (omega arith) (omega arith) (omega arith)

strcmp-Orders_example :
    Returns strcmp_code 0 (start 0 0 0 100 200) (λ t. Orders ab ac t.rd0 × (t.mem ≡ words))
strcmp-Orders_example =
    strcmp-Orders ab ac (start 0 0 0 100 200) ab_at ac_at (omega arith) (omega arith)

strncmp-Orders_example :
    Returns strncmp_code 0
      (start 0 0 1 100 200)
      (λ t. Orders (take 1 ab) (take 1 ac) t.rd0 × (t.mem ≡ words))
strncmp-Orders_example =
    strncmp-Orders 1 ab ac (start 0 0 1 100 200) ab_at ac_at (omega arith) (omega arith) refl
      (omega arith)

strrchr-IsLast_example :
    Returns strrchr_code 0
      (start 0 98 0 100 0)
      (λ t. IsLast words (98 % 2 ^ 8) 100 2 0 t.rd0 × (t.mem ≡ words))
strrchr-IsLast_example = strrchr-IsLast ab (start 0 98 0 100 0) ab_at (omega arith)

strncpy-padded_example :
    Returns strncpy_code 0
      (start 0 5 0 300 100)
      (λ t. (t.rd0 ≡ 300) × (t.mem ≡ padded words 300 100 2 5))
strncpy-padded_example =
    strncpy-padded 5 ab (start 0 5 0 300 100) ab_at (omega arith) (omega arith) (omega arith) refl
      (omega arith)

memcpy-copied_example :
    Returns memcpy_code 0
      (start 0 0 40 301 101)
      (λ t. (t.rd0 ≡ 301) × (t.mem ≡ copied words 301 101 40))
memcpy-copied_example =
    memcpy-copied 40 (start 0 0 40 301 101) words-IsBytes (omega arith) (omega arith) refl

memmove-copied_example :
    Returns
      (memmove_call 102 100 40).code
      0
      (passed (memmove_call 102 100 40) 40 (start 0 0 0 0 0))
      (λ t. (t.rd0 ≡ 102) × (t.mem ≡ copied words 102 100 40))
memmove-copied_example =
    memmove-copied 102 100 40 (start 0 0 0 0 0) words-IsBytes (omega arith) (omega arith)

memset-filled_example :
    Returns memset_code 0
      (start 0x141 0 40 301 0)
      (λ t. (t.rd0 ≡ 301) × (t.mem ≡ filled words 301 (0x141 % 2 ^ 8) 40))
memset-filled_example = memset-filled 40 (start 0x141 0 40 301 0) (omega arith) (omega arith) refl

-- Runs of the code.
strlen_runs : (final (start 0 0 0 0 0) (run strlen_code 20 0 (start 7 7 7 100 0))).rd0 ≡ 2
unfolding run
strlen_runs = refl

strcmp_runs :
    (final (start 0 0 0 0 0) (run strcmp_code 40 0 (start 0 0 0 100 200))).rd0 ≡ 2 ^ 32 - 1
unfolding run
strcmp_runs = refl

strrchr_runs : (final (start 0 0 0 0 0) (run strrchr_code 40 0 (start 0 98 0 100 0))).rd0 ≡ 101
unfolding run
strrchr_runs = refl

memcpy_runs : (final (start 0 0 0 0 0) (run memcpy_code 80 0 (start 0 0 20 301 101))).mem 301 ≡ 98
unfolding run
memcpy_runs = refl

memset_runs : (final (start 0 0 0 0 0) (run memset_code 80 0 (start 65 0 20 301 0))).mem 320 ≡ 65
unfolding run
memset_runs = refl
