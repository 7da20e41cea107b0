-- ===== src/Layout/Exec/Interrupts.antt =====
-- Structures of targets/m68k-amigaos/ndk/include_h/exec/interrupts.h and of include_i/exec/interrupts.i beside it.
use amiga_dev.Common.{some, List, [], ◌∷◌}
use amiga_dev.Layout.{Fields, int16, int32, ptr, struct_of}
use amiga_dev.Layout.Asm.{Directive, aptr, field, label, num, structure, sym, uword}
use amiga_dev.Layout.Agree.{Entry, in_order}
use amiga_dev.Layout.Exec.Lists.{list_fields}
use amiga_dev.Layout.Exec.Nodes.{node_fields}

-- `struct Interrupt`
abbrev pub interrupt_fields : Fields
interrupt_fields = ("is_Node", struct_of node_fields) ∷ ("is_Data", int32) ∷ ("is_Code", ptr) ∷ []

-- `STRUCTURE IS`
abbrev pub interrupt_source : List Directive
interrupt_source =
    structure "IS" (sym "LN_SIZE")
    ∷ field aptr "IS_DATA"
    ∷ field aptr "IS_CODE"
    ∷ label "IS_SIZE"
    ∷ []

-- `struct IntVector`
abbrev pub int_vector_fields : Fields
int_vector_fields = ("iv_Data", int32) ∷ ("iv_Code", ptr) ∷ ("iv_Node", ptr) ∷ []

-- `STRUCTURE IV`
abbrev pub int_vector_source : List Directive
int_vector_source =
    structure "IV" (num 0)
    ∷ field aptr "IV_DATA"
    ∷ field aptr "IV_CODE"
    ∷ field aptr "IV_NODE"
    ∷ label "IV_SIZE"
    ∷ []

-- `struct SoftIntList`
abbrev pub soft_int_list_fields : Fields
soft_int_list_fields = ("sh_List", struct_of list_fields) ∷ ("sh_Pad", int16) ∷ []

-- `STRUCTURE SH`
abbrev pub soft_int_list_source : List Directive
soft_int_list_source = structure "SH" (sym "LH_SIZE") ∷ field uword "SH_PAD" ∷ label "SH_SIZE" ∷ []

-- The structures of this file, with the symbol of each field and of the size.
abbrev pub interrupts_entries : List Entry
interrupts_entries =
    in_order interrupt_fields interrupt_source (some "IS_SIZE")
    ∷ in_order int_vector_fields int_vector_source (some "IV_SIZE")
    ∷ in_order soft_int_list_fields soft_int_list_source (some "SH_SIZE")
    ∷ []
