-- ===== src/StringAsm/For68020/Memmove.antt =====
-- `memmove` on the 68020 chooses the direction of the copy.
use amiga_dev.Common.{ℕ, ◌+◌, ◌^◌, ◌<◌, ◌≡◌, arith, leb, Bool-cases, inl, inr, leb→le, refl}
use amiga_dev.Machine.{Cpu}
use amiga_dev.Machine.Run.{Returns}
use amiga_dev.StringAsm.Strings.{IsBytes, copied}
use amiga_dev.StringAsm.Memmove.{passed}
use amiga_dev.StringAsm.For68020.{memmove_020_call}
use amiga_dev.StringAsm.For68020.Memcpy.Entry.{memcpy_020-copied}
use amiga_dev.StringAsm.For68020.MemcpyDesc.Entry.{memcpy_desc_020-copied}

-- For all areas below the end of memory, overlapping or not and however aligned, `memmove` returns
-- on the 68020, with the destination as its result; the destination then holds the bytes that the
-- source held, and no other byte has changed.
pub memmove_020-copied :
    (d a n : ℕ) (s : Cpu)
    → IsBytes s.mem
    → d + n < 2 ^ 32
    → a + n < 2 ^ 32
    → Returns
        (memmove_020_call d a n).code
        0
        (passed (memmove_020_call d a n) n s)
        (λ t. (t.rd0 ≡ d) × (t.mem ≡ copied s.mem d a n))
memmove_020-copied d a n s bytes fits fits' = elim (Bool-cases (leb d a)) [
  | inl below ↦ rw below (
      memcpy_020-copied n (record s { ra0 = d; ra1 = a; rd2 = n }) bytes (inl (leb→le d a below))
        (fits, fits') refl)
  | inr above ↦ rw above (
      memcpy_desc_020-copied n d a (record s { ra0 = d + n; ra1 = a + n; rd2 = n }) bytes
        (refl, refl, fits, fits', inl (ground arith)) refl)
]
