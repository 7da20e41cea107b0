-- ===== src/StringAsm/For68020/Tests.antt =====
-- The routines for the 68020 at a small memory: the theorems at concrete inputs, and runs.
use amiga_dev.Common.{ℕ, ◌%◌, ◌^◌, ◌≡◌, refl, arith, false, ◌==◌, if◌then◌else◌}
use amiga_dev.Machine.{Cpu, Memory}
use amiga_dev.Machine.Run.{run, final, Returns}
use amiga_dev.StringAsm.Strings.{IsBytes, copied}
use amiga_dev.StringAsm.Memset.{filled}
use amiga_dev.StringAsm.Memmove.{passed}
use amiga_dev.StringAsm.For68020.{
  memcpy_020_code, memcpy_desc_020_code, memset_020_code, memmove_020_call,
}
use amiga_dev.StringAsm.For68020.Memcpy.Entry.{memcpy_020-copied}
use amiga_dev.StringAsm.For68020.Memset.Entry.{memset_020-filled}
use amiga_dev.StringAsm.For68020.Memmove.{memmove_020-copied}

-- 98 at 101, 99 at 120, and zeros elsewhere.
abbrev bytes : Memory
bytes p = if p == 101 then 98 else if p == 120 then 99 else 0

bytes-IsBytes : IsBytes bytes
bytes-IsBytes = λ p. ground arith

abbrev start : ℕ → ℕ → ℕ → ℕ → Cpu
start d0 d2 a0 a1 = record {
  rd0 = d0;
  rd1 = 0;
  rd2 = d2;
  ra0 = a0;
  ra1 = a1;
  z = false;
  n = false;
  c = false;
  mem = bytes;
}

memcpy_020-copied_example :
    Returns memcpy_020_code 0
      (start 0 40 301 100)
      (λ t. (t.rd0 ≡ 301) × (t.mem ≡ copied bytes 301 100 40))
memcpy_020-copied_example =
    memcpy_020-copied 40 (start 0 40 301 100) bytes-IsBytes (omega arith) (omega arith) refl

memmove_020-copied_example :
    Returns
      (memmove_020_call 103 100 40).code
      0
      (passed (memmove_020_call 103 100 40) 40 (start 0 0 0 0))
      (λ t. (t.rd0 ≡ 103) × (t.mem ≡ copied bytes 103 100 40))
memmove_020-copied_example =
    memmove_020-copied 103 100 40 (start 0 0 0 0) bytes-IsBytes (omega arith) (omega arith)

memset_020-filled_example :
    Returns memset_020_code 0
      (start 0x141 40 303 0)
      (λ t. (t.rd0 ≡ 303) × (t.mem ≡ filled bytes 303 (0x141 % 2 ^ 8) 40))
memset_020-filled_example =
    memset_020-filled 40 (start 0x141 40 303 0) (omega arith) (omega arith) refl

-- Runs of the code.
memcpy_020_runs :
    (final (start 0 0 0 0) (run memcpy_020_code 80 0 (start 0 21 303 100))).mem 323 ≡ 99
unfolding run
memcpy_020_runs = refl

memcpy_desc_020_runs :
    (final (start 0 0 0 0) (run memcpy_desc_020_code 80 0 (start 0 21 324 121))).mem 304 ≡ 98
unfolding run
memcpy_desc_020_runs = refl

memset_020_runs :
    (final (start 0 0 0 0) (run memset_020_code 80 0 (start 65 23 303 0))).mem 325 ≡ 65
unfolding run
memset_020_runs = refl
