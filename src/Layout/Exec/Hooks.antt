-- ===== src/Layout/Exec/Hooks.antt =====
-- Structures of targets/m68k-amigaos/ndk/include_h/utility/hooks.h and of include_i/utility/hooks.i beside it.
use amiga_dev.Common.{some, List, [], ◌∷◌}
use amiga_dev.Layout.{Fields, int32, ptr, struct_of}
use amiga_dev.Layout.Asm.{Directive, aptr, field, label, structure, sym}
use amiga_dev.Layout.Agree.{Entry, in_order}
use amiga_dev.Layout.Exec.Nodes.{min_node_fields}

-- `struct Hook`
abbrev pub hook_fields : Fields
hook_fields =
    ("h_MinNode", struct_of min_node_fields)
    ∷ ("h_Entry", ptr)
    ∷ ("h_SubEntry", ptr)
    ∷ ("h_Data", int32)
    ∷ []

-- `STRUCTURE HOOK`
abbrev pub hook_source : List Directive
hook_source =
    structure "HOOK" (sym "MLN_SIZE")
    ∷ field aptr "h_Entry"
    ∷ field aptr "h_SubEntry"
    ∷ field aptr "h_Data"
    ∷ label "h_SIZEOF"
    ∷ []

-- The structures of this file, with the symbol of each field and of the size.
abbrev pub hooks_entries : List Entry
hooks_entries = in_order hook_fields hook_source (some "h_SIZEOF") ∷ []
