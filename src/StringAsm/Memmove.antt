-- ===== src/StringAsm/Memmove.antt =====
-- `memmove` chooses the direction of the copy.
use amiga_dev.Common.{ℕ, ◌+◌, ◌^◌, ◌<◌, ◌≡◌, arith, leb, Bool-cases, inl, inr, leb→le, refl}
use amiga_dev.Machine.{Cpu}
use amiga_dev.Machine.Run.{Returns}
use amiga_dev.StringAsm.{Call, memmove_call}
use amiga_dev.StringAsm.Strings.{IsBytes, copied}
use amiga_dev.StringAsm.Memcpy.Entry.{memcpy-copied}
use amiga_dev.StringAsm.MemcpyDesc.Entry.{memcpy_desc-copied}

-- The registers as the chosen routine is entered.
abbrev pub passed : Call → ℕ → Cpu → Cpu
passed call n s = record s { ra0 = call.dst; ra1 = call.src; rd2 = n }

-- For all areas below the end of memory, overlapping or not and however aligned, `memmove` returns
-- with no address error, with the destination as its result; the destination then holds the bytes
-- that the source held, and no other byte has changed.
pub memmove-copied :
    (d a n : ℕ) (s : Cpu)
    → IsBytes s.mem
    → d + n < 2 ^ 32
    → a + n < 2 ^ 32
    → Returns
        (memmove_call d a n).code
        0
        (passed (memmove_call d a n) n s)
        (λ t. (t.rd0 ≡ d) × (t.mem ≡ copied s.mem d a n))
memmove-copied d a n s bytes fits fits' = elim (Bool-cases (leb d a)) [
  | inl below ↦ rw below (
      memcpy-copied n (record s { ra0 = d; ra1 = a; rd2 = n }) bytes (inl (leb→le d a below))
        (fits, fits') refl)
  | inr above ↦ rw above (
      memcpy_desc-copied n d a (record s { ra0 = d + n; ra1 = a + n; rd2 = n }) bytes
        (refl, refl, fits, fits', inl (ground arith)) refl)
]
