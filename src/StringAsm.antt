-- ===== src/StringAsm.antt =====
-- The inline assembly of targets/m68k-amigaos/include/string.h, transcribed line by line. The
-- variants for the 68000 and the routines that every processor shares.
pub mod Strings
pub mod Strlen
pub mod Strcpy
pub mod Strcat
pub mod Order
pub mod Strcmp
pub mod Strncmp
pub mod Strrchr
pub mod Strncpy
pub mod Copies
pub mod Memcpy
pub mod MemcpyDesc
pub mod Memmove
pub mod Memset
pub mod For68020
mod Tests
use amiga_dev.Common.{ℕ, ◌+◌, List, [], ◌∷◌, leb, if◌then◌else◌}
use amiga_dev.Machine.{
  d0, d1, d2, a0, a1, byte, word, long, dn, an, ind, post, pre, imm, ra, eq, ne, lo, pl, mi, fwd,
  back, Instr, move, moveq, tst, cmp, sub, and_to, subq, addq_a, subq_a, not_l, lsl_w, swap, b, dbf,
}

-- `__asm_memcpy(a0, a1, d2)`
abbrev pub memcpy_code : List Instr
memcpy_code =
    move long (an a0) (dn d0)
    ∷ cmp long (imm 16) d2
    ∷ b lo (fwd 48)
    ∷ moveq 1 d1
    ∷ and_to byte (dn d0) d1
    ∷ b eq (fwd 4)
    ∷ move byte (post a1) (post a0)
    ∷ subq long 1 d2
    ∷ move long (an a1) (dn d1)
    ∷ and_to byte (imm 1) d1
    ∷ b eq (fwd 16)
    ∷ cmp long (imm 0x10000) d2
    ∷ b lo (fwd 22)
    ∷ move byte (post a1) (post a0)
    ∷ subq long 1 d2
    ∷ b ne (back 6)
    ∷ b ra (fwd 24)
    ∷ moveq 3 d1
    ∷ and_to long (dn d2) d1
    ∷ sub long (dn d1) d2
    ∷ move long (post a1) (post a0)
    ∷ subq long 4 d2
    ∷ b ne (back 6)
    ∷ move word (dn d1) (dn d2)
    ∷ subq word 1 d2
    ∷ b lo (fwd 6)
    ∷ move byte (post a1) (post a0)
    ∷ dbf d2 (back 4)
    ∷ []

-- `__asm_memcpy_desc(a0, a1, d2)`, given the ends of the two areas
abbrev pub memcpy_desc_code : List Instr
memcpy_desc_code =
    cmp long (imm 16) d2
    ∷ b lo (fwd 48)
    ∷ moveq 1 d1
    ∷ move long (an a0) (dn d0)
    ∷ and_to byte (dn d1) d0
    ∷ b eq (fwd 4)
    ∷ move byte (pre a1) (pre a0)
    ∷ subq long 1 d2
    ∷ move long (an a1) (dn d0)
    ∷ and_to byte (dn d1) d0
    ∷ b eq (fwd 16)
    ∷ cmp long (imm 0x10000) d2
    ∷ b lo (fwd 22)
    ∷ move byte (pre a1) (pre a0)
    ∷ subq long 1 d2
    ∷ b ne (back 6)
    ∷ b ra (fwd 24)
    ∷ moveq 3 d1
    ∷ and_to long (dn d2) d1
    ∷ sub long (dn d1) d2
    ∷ move long (pre a1) (pre a0)
    ∷ subq long 4 d2
    ∷ b ne (back 6)
    ∷ move word (dn d1) (dn d2)
    ∷ subq word 1 d2
    ∷ b lo (fwd 6)
    ∷ move byte (pre a1) (pre a0)
    ∷ dbf d2 (back 4)
    ∷ move long (an a0) (dn d0)
    ∷ []

-- `__asm_memset(a0, d0, d2)`
abbrev pub memset_code : List Instr
memset_code =
    move long (an a0) (an a1)
    ∷ cmp long (imm 16) d2
    ∷ b lo (fwd 38)
    ∷ move long (an a0) (dn d1)
    ∷ and_to byte (imm 1) d1
    ∷ b eq (fwd 4)
    ∷ move byte (dn d0) (post a0)
    ∷ subq long 1 d2
    ∷ move byte (dn d0) (dn d1)
    ∷ lsl_w 8 d0
    ∷ move byte (dn d1) (dn d0)
    ∷ move word (dn d0) (dn d1)
    ∷ swap d0
    ∷ move word (dn d1) (dn d0)
    ∷ moveq 3 d1
    ∷ and_to long (dn d2) d1
    ∷ sub long (dn d1) d2
    ∷ move long (dn d0) (post a0)
    ∷ subq long 4 d2
    ∷ b ne (back 6)
    ∷ move word (dn d1) (dn d2)
    ∷ subq word 1 d2
    ∷ b lo (fwd 6)
    ∷ move byte (dn d0) (post a0)
    ∷ dbf d2 (back 4)
    ∷ move long (an a1) (dn d0)
    ∷ []

-- `__asm_strlen(a0)`
abbrev pub strlen_code : List Instr
strlen_code =
    move long (an a0) (dn d0)
    ∷ tst byte (post a0)
    ∷ b ne (back 4)
    ∷ sub long (an a0) d0
    ∷ not_l d0
    ∷ []

-- `__asm_strcpy(a0, a1)`
abbrev pub strcpy_code : List Instr
strcpy_code = move long (an a0) (dn d0) ∷ move byte (post a1) (post a0) ∷ b ne (back 4) ∷ []

-- `__asm_strncpy(a0, a1, d1)`
abbrev pub strncpy_code : List Instr
strncpy_code =
    move long (an a0) (dn d0)
    ∷ b ra (fwd 6)
    ∷ move byte (ind a1) (post a0)
    ∷ b eq (fwd 2)
    ∷ addq_a 1 a1
    ∷ subq long 1 d1
    ∷ b pl (back 10)
    ∷ []

-- `__asm_strcmp(a0, a1)`
abbrev pub strcmp_code : List Instr
strcmp_code =
    moveq 0 d0
    ∷ moveq 0 d1
    ∷ move byte (post a0) (dn d0)
    ∷ move byte (post a1) (dn d1)
    ∷ b eq (fwd 6)
    ∷ sub long (dn d1) d0
    ∷ b eq (back 10)
    ∷ moveq 0 d1
    ∷ sub long (dn d1) d0
    ∷ []

-- `__asm_strncmp(a0, a1, d2)`
abbrev pub strncmp_code : List Instr
strncmp_code =
    moveq 0 d0
    ∷ moveq 0 d1
    ∷ subq long 1 d2
    ∷ b mi (fwd 14)
    ∷ move byte (post a0) (dn d0)
    ∷ move byte (post a1) (dn d1)
    ∷ b eq (fwd 6)
    ∷ sub long (dn d1) d0
    ∷ b eq (back 14)
    ∷ moveq 0 d1
    ∷ sub long (dn d1) d0
    ∷ []

-- `__asm_strcat(a0, a1)`
abbrev pub strcat_code : List Instr
strcat_code =
    move long (an a0) (dn d0)
    ∷ tst byte (post a0)
    ∷ b ne (back 4)
    ∷ subq_a 1 a0
    ∷ move byte (post a1) (post a0)
    ∷ b ne (back 4)
    ∷ []

-- `__asm_strrchr(a0, d1)`
abbrev pub strrchr_code : List Instr
strrchr_code =
    moveq 0 d0
    ∷ cmp byte (ind a0) d1
    ∷ b ne (fwd 2)
    ∷ move long (an a0) (dn d0)
    ∷ tst byte (post a0)
    ∷ b ne (back 10)
    ∷ []

-- What `memmove(d, s, n)` calls, and the two addresses that it passes.
pub record Call : Type 0 where
  pub code : List Instr
  pub dst : ℕ
  pub src : ℕ

abbrev pub memmove_call : ℕ → ℕ → ℕ → Call
memmove_call d s n =
    if leb d s
    then record { code = memcpy_code; dst = d; src = s }
    else record { code = memcpy_desc_code; dst = d + n; src = s + n }
