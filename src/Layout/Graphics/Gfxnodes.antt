-- ===== src/Layout/Graphics/Gfxnodes.antt =====
-- Structures of targets/m68k-amigaos/ndk/include_h/graphics/gfxnodes.h and of include_i/graphics/gfxnodes.i beside it.
use amiga_dev.Common.{some, List, [], ◌∷◌}
use amiga_dev.Layout.{Fields, int32, int8, ptr}
use amiga_dev.Layout.Asm.{Directive, aptr, byte, field, label, long, num, structure, ubyte}
use amiga_dev.Layout.Agree.{Entry, in_order}

-- `struct ExtendedNode`
abbrev pub extended_node_fields : Fields
extended_node_fields =
    ("xln_Succ", ptr)
    ∷ ("xln_Pred", ptr)
    ∷ ("xln_Type", int8)
    ∷ ("xln_Pri", int8)
    ∷ ("xln_Name", ptr)
    ∷ ("xln_Subsystem", int8)
    ∷ ("xln_Subtype", int8)
    ∷ ("xln_Library", int32)
    ∷ ("xln_Init", ptr)
    ∷ []

-- `STRUCTURE XLN`
abbrev pub extended_node_source : List Directive
extended_node_source =
    structure "XLN" (num 0)
    ∷ field aptr "XLN_SUCC"
    ∷ field aptr "XLN_PRED"
    ∷ field ubyte "XLN_TYPE"
    ∷ field byte "XLN_PRI"
    ∷ field aptr "XLN_NAME"
    ∷ field ubyte "XLN_SUBSYSTEM"
    ∷ field ubyte "XLN_SUBTYPE"
    ∷ field long "XLN_LIBRARY"
    ∷ field long "XLN_INIT"
    ∷ label "XLN_SIZE"
    ∷ []

-- The structures of this file, with the symbol of each field and of the size.
abbrev pub gfxnodes_entries : List Entry
gfxnodes_entries = in_order extended_node_fields extended_node_source (some "XLN_SIZE") ∷ []
