-- ===== src/StringAsm/For68020.antt =====
-- The variants of targets/m68k-amigaos/include/string.h for the 68020 and later processors,
-- transcribed line by line. Words and longs are moved at any address there.
pub mod Bytes
pub mod Words
pub mod Down
pub mod Memcpy
pub mod MemcpyDesc
pub mod Stores
pub mod Memset
pub mod Memmove
mod Tests
use amiga_dev.Common.{ℕ, ◌+◌, List, [], ◌∷◌, leb, if◌then◌else◌}
use amiga_dev.Machine.{
  d0, d1, d2, a0, a1, byte, word, long, dn, an, post, pre, ra, lo, cc, fwd, back, Instr, move,
  move_any, subq, addq, lsl_l, lsr_l, swap, b, dbf,
}
use amiga_dev.StringAsm.{Call}

-- `__asm_memcpy(a0, a1, d2)`
abbrev pub memcpy_020_code : List Instr
memcpy_020_code =
    move long (an a0) (dn d0)
    ∷ subq long 4 d2
    ∷ b lo (fwd 30)
    ∷ move long (dn d0) (dn d1)
    ∷ lsr_l 1 d1
    ∷ b cc (fwd 8)
    ∷ move byte (post a1) (post a0)
    ∷ subq long 1 d2
    ∷ b lo (fwd 18)
    ∷ addq long 1 d1
    ∷ lsr_l 1 d1
    ∷ b cc (fwd 6)
    ∷ move_any word (post a1) (post a0)
    ∷ subq long 2 d2
    ∷ b lo (fwd 6)
    ∷ move_any long (post a1) (post a0)
    ∷ subq long 4 d2
    ∷ b cc (back 6)
    ∷ addq long 3 d2
    ∷ b cc (fwd 6)
    ∷ move byte (post a1) (post a0)
    ∷ dbf d2 (back 4)
    ∷ []

-- `__asm_memcpy_desc(a0, a1, d2)`, given the ends of the two areas
abbrev pub memcpy_desc_020_code : List Instr
memcpy_desc_020_code =
    subq long 4 d2
    ∷ b lo (fwd 28)
    ∷ move long (an a0) (dn d0)
    ∷ lsr_l 1 d0
    ∷ b cc (fwd 6)
    ∷ move byte (pre a1) (pre a0)
    ∷ subq long 1 d2
    ∷ b lo (fwd 16)
    ∷ lsr_l 1 d0
    ∷ b cc (fwd 6)
    ∷ move_any word (pre a1) (pre a0)
    ∷ subq long 2 d2
    ∷ b lo (fwd 6)
    ∷ move_any long (pre a1) (pre a0)
    ∷ subq long 4 d2
    ∷ b cc (back 6)
    ∷ addq long 3 d2
    ∷ b cc (fwd 6)
    ∷ move byte (pre a1) (pre a0)
    ∷ dbf d2 (back 4)
    ∷ move long (an a0) (dn d0)
    ∷ []

-- `__asm_memset(a0, d0, d2)`
abbrev pub memset_020_code : List Instr
memset_020_code =
    move long (an a0) (an a1)
    ∷ subq long 8 d2
    ∷ b lo (fwd 46)
    ∷ move long (dn d0) (dn d1)
    ∷ lsl_l 8 d0
    ∷ move byte (dn d1) (dn d0)
    ∷ addq long 4 d2
    ∷ move long (dn d0) (dn d1)
    ∷ swap d0
    ∷ move word (dn d1) (dn d0)
    ∷ move long (an a1) (dn d1)
    ∷ lsr_l 1 d1
    ∷ b cc (fwd 6)
    ∷ move byte (dn d0) (post a0)
    ∷ addq long 1 d1
    ∷ subq long 1 d2
    ∷ lsr_l 1 d1
    ∷ b cc (fwd 4)
    ∷ move_any word (dn d0) (post a0)
    ∷ subq long 2 d2
    ∷ move_any long (dn d0) (post a0)
    ∷ subq long 4 d2
    ∷ b cc (back 6)
    ∷ addq long 3 d2
    ∷ b lo (fwd 6)
    ∷ b ra (fwd 10)
    ∷ addq long 7 d2
    ∷ b cc (fwd 6)
    ∷ move byte (dn d0) (post a0)
    ∷ dbf d2 (back 4)
    ∷ move long (an a1) (dn d0)
    ∷ []

-- `memmove(d, s, n)`: the routine called, with its two pointers
abbrev pub memmove_020_call : ℕ → ℕ → ℕ → Call
memmove_020_call d s n =
    if leb d s
    then record { code = memcpy_020_code; dst = d; src = s }
    else record { code = memcpy_desc_020_code; dst = d + n; src = s + n }
