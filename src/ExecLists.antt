-- ===== src/ExecLists.antt =====
-- The list macros of targets/m68k-amigaos/ndk/include_i/exec/lists.i, with the offsets of exec/nodes.i
-- written out: LN_PRED is 4, and LH_TAIL is 4 and LH_TAILPRED is 8 in a list header.
pub mod Words
pub mod Links
pub mod Changes
pub mod Shape
pub mod AddHead
pub mod AddTail
pub mod Remove
pub mod RemHead
pub mod RemTail
pub mod Empty
pub mod Calls
mod Tests
use amiga_dev.Common.{ℕ, ◌+◌, List, [], ◌∷◌, Bool, ◌==◌}
use amiga_dev.Machine.{
  d0, a0, a1, long, dn, an, ind, post, pre, disp, eq, fwd, Instr, move, addq_a, clr_l, addq_mem,
  exg, movem, cmp_a, b, Memory,
}
use amiga_dev.StringAsm.Copies.{longword}

-- `NEWLIST a0`
abbrev pub newlist_code : List Instr
newlist_code =
    move long (an a0) (disp 8 a0) ∷ addq_a 4 a0 ∷ clr_l a0 ∷ move long (an a0) (pre a0) ∷ []

-- `TSTLIST a0`
abbrev pub tstlist_code : List Instr
tstlist_code = cmp_a (disp 8 a0) a0 ∷ []

-- `ADDHEAD`: the list in `a0`, the node in `a1`
abbrev pub addhead_code : List Instr
addhead_code =
    move long (ind a0) (dn d0)
    ∷ move long (an a1) (ind a0)
    ∷ movem d0 a0 a1
    ∷ move long (dn d0) (an a0)
    ∷ move long (an a1) (disp 4 a0)
    ∷ []

-- `ADDTAIL`: the list in `a0`, the node in `a1`
abbrev pub addtail_code : List Instr
addtail_code =
    addq_a 4 a0
    ∷ move long (disp 4 a0) (dn d0)
    ∷ move long (an a1) (disp 4 a0)
    ∷ exg d0 a0
    ∷ movem d0 a0 a1
    ∷ move long (an a1) (ind a0)
    ∷ []

-- `REMOVE`: the node in `a1`
abbrev pub remove_code : List Instr
remove_code =
    move long (post a1) (an a0)
    ∷ move long (ind a1) (an a1)
    ∷ move long (an a0) (ind a1)
    ∷ move long (an a1) (disp 4 a0)
    ∷ []

-- `REMHEAD`: the list in `a0`, the node or 0 as the result in `d0`
abbrev pub remhead_code : List Instr
remhead_code =
    move long (ind a0) (an a1)
    ∷ move long (ind a1) (dn d0)
    ∷ b eq (fwd 8)
    ∷ move long (dn d0) (ind a0)
    ∷ exg d0 a1
    ∷ move long (an a0) (disp 4 a1)
    ∷ []

-- `REMTAIL`: the list in `a0`, the node or 0 as the result in `d0`
abbrev pub remtail_code : List Instr
remtail_code =
    move long (disp 8 a0) (an a1)
    ∷ move long (disp 4 a1) (dn d0)
    ∷ b eq (fwd 10)
    ∷ move long (dn d0) (disp 8 a0)
    ∷ exg d0 a1
    ∷ move long (an a0) (ind a1)
    ∷ addq_mem 4 a1
    ∷ []

-- `IsListEmpty` of exec/lists.h
abbrev pub is_list_empty : Memory → ℕ → Bool
is_list_empty m h = longword m (h + 8) == h
