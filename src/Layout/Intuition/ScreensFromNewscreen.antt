-- ===== src/Layout/Intuition/ScreensFromNewscreen.antt =====
-- Structures of targets/m68k-amigaos/ndk/include_h/intuition/screens.h and of include_i/intuition/screens.i beside it: `NewScreen` to `ScreenBuffer`.
use amiga_dev.Common.{some, List, [], ◌∷◌}
use amiga_dev.Layout.{Fields, int16, int8, ptr, struct_of}
use amiga_dev.Layout.Asm.{
  Directive, aptr, byte, field, label, num, structure, sym, ubyte, uword, word,
}
use amiga_dev.Layout.Agree.{Entry, entry, in_order}
use amiga_dev.Layout.Exec.Nodes.{node_fields}

-- `struct NewScreen`
abbrev pub new_screen_fields : Fields
new_screen_fields =
    ("LeftEdge", int16)
    ∷ ("TopEdge", int16)
    ∷ ("Width", int16)
    ∷ ("Height", int16)
    ∷ ("Depth", int16)
    ∷ ("DetailPen", int8)
    ∷ ("BlockPen", int8)
    ∷ ("ViewModes", int16)
    ∷ ("Type", int16)
    ∷ ("Font", ptr)
    ∷ ("DefaultTitle", ptr)
    ∷ ("Gadgets", ptr)
    ∷ ("CustomBitMap", ptr)
    ∷ []

-- `STRUCTURE NewScreen`
abbrev pub new_screen_source : List Directive
new_screen_source =
    structure "NewScreen" (num 0)
    ∷ field word "ns_LeftEdge"
    ∷ field word "ns_TopEdge"
    ∷ field word "ns_Width"
    ∷ field word "ns_Height"
    ∷ field word "ns_Depth"
    ∷ field byte "ns_DetailPen"
    ∷ field byte "ns_BlockPen"
    ∷ field word "ns_ViewModes"
    ∷ field word "ns_Type"
    ∷ field aptr "ns_Font"
    ∷ field aptr "ns_DefaultTitle"
    ∷ field aptr "ns_Gadgets"
    ∷ field aptr "ns_CustomBitMap"
    ∷ label "ns_SIZEOF"
    ∷ []

-- `struct PubScreenNode`
abbrev pub pub_screen_node_fields : Fields
pub_screen_node_fields =
    ("psn_Node", struct_of node_fields)
    ∷ ("psn_Screen", ptr)
    ∷ ("psn_Flags", int16)
    ∷ ("psn_Size", int16)
    ∷ ("psn_VisitorCount", int16)
    ∷ ("psn_SigTask", ptr)
    ∷ ("psn_SigBit", int8)
    ∷ []

-- `STRUCTURE PubScreenNode`
abbrev pub pub_screen_node_source : List Directive
pub_screen_node_source =
    structure "PubScreenNode" (sym "LN_SIZE")
    ∷ field aptr "psn_Screen"
    ∷ field uword "psn_Flags"
    ∷ field word "psn_Size"
    ∷ field word "psn_VisitorCount"
    ∷ field aptr "psn_SigTask"
    ∷ field ubyte "psn_SigBit"
    ∷ field ubyte "psn_Pad1"
    ∷ label "psn_SIZEOF"
    ∷ []

-- `struct ScreenBuffer`
abbrev pub screen_buffer_fields : Fields
screen_buffer_fields = ("sb_BitMap", ptr) ∷ ("sb_DBufInfo", ptr) ∷ []

-- `STRUCTURE ScreenBuffer`
abbrev pub screen_buffer_source : List Directive
screen_buffer_source =
    structure "ScreenBuffer" (num 0)
    ∷ field aptr "sb_BitMap"
    ∷ field aptr "sb_DBufInfo"
    ∷ label "sb_SIZEOF"
    ∷ []

-- The structures of this file, with the symbol of each field and of the size.
abbrev pub screens_from_newscreen_entries : List Entry
screens_from_newscreen_entries =
    in_order new_screen_fields new_screen_source (some "ns_SIZEOF")
    ∷ entry pub_screen_node_fields pub_screen_node_source
        ("PubScreenNode" ∷ "psn_Screen" ∷ "psn_Flags" ∷ "psn_Size" ∷ "psn_VisitorCount"
          ∷ "psn_SigTask" ∷ "psn_SigBit" ∷ [])
        (some "psn_SIZEOF")
    ∷ in_order screen_buffer_fields screen_buffer_source (some "sb_SIZEOF")
    ∷ []
