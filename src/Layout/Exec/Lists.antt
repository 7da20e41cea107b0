-- ===== src/Layout/Exec/Lists.antt =====
-- Structures of targets/m68k-amigaos/ndk/include_h/exec/lists.h and of include_i/exec/lists.i beside it.
use amiga_dev.Common.{some, List, [], ◌∷◌}
use amiga_dev.Layout.{Fields, int8, ptr}
use amiga_dev.Layout.Asm.{Directive, aptr, field, label, num, structure, ubyte}
use amiga_dev.Layout.Agree.{Entry, in_order}

-- `struct List`
abbrev pub list_fields : Fields
list_fields =
    ("lh_Head", ptr)
    ∷ ("lh_Tail", ptr)
    ∷ ("lh_TailPred", ptr)
    ∷ ("lh_Type", int8)
    ∷ ("l_pad", int8)
    ∷ []

-- `STRUCTURE LH`
abbrev pub list_source : List Directive
list_source =
    structure "LH" (num 0)
    ∷ field aptr "LH_HEAD"
    ∷ field aptr "LH_TAIL"
    ∷ field aptr "LH_TAILPRED"
    ∷ field ubyte "LH_TYPE"
    ∷ field ubyte "LH_pad"
    ∷ label "LH_SIZE"
    ∷ []

-- `struct MinList`
abbrev pub min_list_fields : Fields
min_list_fields = ("mlh_Head", ptr) ∷ ("mlh_Tail", ptr) ∷ ("mlh_TailPred", ptr) ∷ []

-- `STRUCTURE MLH`
abbrev pub min_list_source : List Directive
min_list_source =
    structure "MLH" (num 0)
    ∷ field aptr "MLH_HEAD"
    ∷ field aptr "MLH_TAIL"
    ∷ field aptr "MLH_TAILPRED"
    ∷ label "MLH_SIZE"
    ∷ []

-- The structures of this file, with the symbol of each field and of the size.
abbrev pub lists_entries : List Entry
lists_entries =
    in_order list_fields list_source (some "LH_SIZE")
    ∷ in_order min_list_fields min_list_source (some "MLH_SIZE")
    ∷ []
