-- ===== src/Layout/Exec/Memory.antt =====
-- Structures of targets/m68k-amigaos/ndk/include_h/exec/memory.h and of include_i/exec/memory.i beside it.
use amiga_dev.Common.{some, List, [], ◌∷◌}
use amiga_dev.Layout.{Fields, int16, int32, ptr, struct_of}
use amiga_dev.Layout.Asm.{Directive, aptr, field, label, num, structure, sym, ulong, uword}
use amiga_dev.Layout.Agree.{Entry, in_order}
use amiga_dev.Layout.Exec.Nodes.{node_fields}

-- `struct MemHeader`
abbrev pub mem_header_fields : Fields
mem_header_fields =
    ("mh_Node", struct_of node_fields)
    ∷ ("mh_Attributes", int16)
    ∷ ("mh_First", ptr)
    ∷ ("mh_Lower", int32)
    ∷ ("mh_Upper", int32)
    ∷ ("mh_Free", int32)
    ∷ []

-- `STRUCTURE MH`
abbrev pub mem_header_source : List Directive
mem_header_source =
    structure "MH" (sym "LN_SIZE")
    ∷ field uword "MH_ATTRIBUTES"
    ∷ field aptr "MH_FIRST"
    ∷ field aptr "MH_LOWER"
    ∷ field aptr "MH_UPPER"
    ∷ field ulong "MH_FREE"
    ∷ label "MH_SIZE"
    ∷ []

-- `struct MemHandlerData`
abbrev pub mem_handler_data_fields : Fields
mem_handler_data_fields =
    ("memh_RequestSize", int32) ∷ ("memh_RequestFlags", int32) ∷ ("memh_Flags", int32) ∷ []

-- `STRUCTURE MemHandlerData`
abbrev pub mem_handler_data_source : List Directive
mem_handler_data_source =
    structure "MemHandlerData" (num 0)
    ∷ field ulong "memh_RequestSize"
    ∷ field ulong "memh_RequestFlags"
    ∷ field ulong "memh_Flags"
    ∷ label "memh_SIZEOF"
    ∷ []

-- The structures of this file, with the symbol of each field and of the size.
abbrev pub memory_entries : List Entry
memory_entries =
    in_order mem_header_fields mem_header_source (some "MH_SIZE")
    ∷ in_order mem_handler_data_fields mem_handler_data_source (some "memh_SIZEOF")
    ∷ []
