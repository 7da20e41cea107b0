-- ===== src/Layout/Exec/Var.antt =====
-- Structures of targets/m68k-amigaos/ndk/include_h/dos/var.h and of include_i/dos/var.i beside it.
use amiga_dev.Common.{some, List, [], ◌∷◌}
use amiga_dev.Layout.{Fields, int16, int32, ptr, struct_of}
use amiga_dev.Layout.Asm.{Directive, aptr, field, label, num, struct, structure, sym, ulong, uword}
use amiga_dev.Layout.Agree.{Entry, in_order}
use amiga_dev.Layout.Exec.Nodes.{node_fields}

-- `struct LocalVar`
abbrev pub local_var_fields : Fields
local_var_fields =
    ("lv_Node", struct_of node_fields)
    ∷ ("lv_Flags", int16)
    ∷ ("lv_Value", ptr)
    ∷ ("lv_Len", int32)
    ∷ []

-- `STRUCTURE LocalVar`
abbrev pub local_var_source : List Directive
local_var_source =
    structure "LocalVar" (num 0)
    ∷ struct "lv_Node" (sym "LN_SIZE")
    ∷ field uword "lv_Flags"
    ∷ field aptr "lv_Value"
    ∷ field ulong "lv_Len"
    ∷ label "LocalVar_SIZEOF"
    ∷ []

-- The structures of this file, with the symbol of each field and of the size.
abbrev pub var_entries : List Entry
var_entries = in_order local_var_fields local_var_source (some "LocalVar_SIZEOF") ∷ []
