-- ===== src/Layout/Graphics/View.antt =====
-- Structures of targets/m68k-amigaos/ndk/include_h/graphics/view.h and of include_i/graphics/view.i beside it: `ViewPort` to `ColorMap`.
use amiga_dev.Common.{some, List, [], ◌∷◌}
use amiga_dev.Layout.{Fields, int16, int32, int8, ptr, struct_of}
use amiga_dev.Layout.Asm.{
  Directive, aptr, byte, field, label, long, num, structure, sym, ubyte, ulong, uword, word,
}
use amiga_dev.Layout.Agree.{Entry, in_order}
use amiga_dev.Layout.Graphics.Gfxnodes.{extended_node_fields}

-- `struct ViewPort`
abbrev pub view_port_fields : Fields
view_port_fields =
    ("Next", ptr)
    ∷ ("ColorMap", ptr)
    ∷ ("DspIns", ptr)
    ∷ ("SprIns", ptr)
    ∷ ("ClrIns", ptr)
    ∷ ("UCopIns", ptr)
    ∷ ("DWidth", int16)
    ∷ ("DHeight", int16)
    ∷ ("DxOffset", int16)
    ∷ ("DyOffset", int16)
    ∷ ("Modes", int16)
    ∷ ("SpritePriorities", int8)
    ∷ ("ExtendedModes", int8)
    ∷ ("RasInfo", ptr)
    ∷ []

-- `STRUCTURE ViewPort`
abbrev pub view_port_source : List Directive
view_port_source =
    structure "ViewPort" (num 0)
    ∷ field long "vp_Next"
    ∷ field long "vp_ColorMap"
    ∷ field long "vp_DspIns"
    ∷ field long "vp_SprIns"
    ∷ field long "vp_ClrIns"
    ∷ field long "vp_UCopIns"
    ∷ field word "vp_DWidth"
    ∷ field word "vp_DHeight"
    ∷ field word "vp_DxOffset"
    ∷ field word "vp_DyOffset"
    ∷ field word "vp_Modes"
    ∷ field byte "vp_SpritePriorities"
    ∷ field byte "vp_ExtendedModes"
    ∷ field aptr "vp_RasInfo"
    ∷ label "vp_SIZEOF"
    ∷ []

-- `struct View`
abbrev pub view_fields : Fields
view_fields =
    ("ViewPort", ptr)
    ∷ ("LOFCprList", ptr)
    ∷ ("SHFCprList", ptr)
    ∷ ("DyOffset", int16)
    ∷ ("DxOffset", int16)
    ∷ ("Modes", int16)
    ∷ []

-- `STRUCTURE View`
abbrev pub view_source : List Directive
view_source =
    structure "View" (num 0)
    ∷ field long "v_ViewPort"
    ∷ field long "v_LOFCprList"
    ∷ field long "v_SHFCprList"
    ∷ field word "v_DyOffset"
    ∷ field word "v_DxOffset"
    ∷ field word "v_Modes"
    ∷ label "v_SIZEOF"
    ∷ []

-- `struct ViewExtra`
abbrev pub view_extra_fields : Fields
view_extra_fields =
    ("n", struct_of extended_node_fields)
    ∷ ("View", ptr)
    ∷ ("Monitor", ptr)
    ∷ ("TopLine", int16)
    ∷ []

-- `STRUCTURE ViewExtra`
abbrev pub view_extra_source : List Directive
view_extra_source =
    structure "ViewExtra" (sym "XLN_SIZE")
    ∷ field aptr "ve_View"
    ∷ field aptr "ve_Monitor"
    ∷ field word "ve_TopLine"
    ∷ label "ve_SIZEOF"
    ∷ []

-- `struct RasInfo`
abbrev pub ras_info_fields : Fields
ras_info_fields = ("Next", ptr) ∷ ("BitMap", ptr) ∷ ("RxOffset", int16) ∷ ("RyOffset", int16) ∷ []

-- `STRUCTURE RasInfo`
abbrev pub ras_info_source : List Directive
ras_info_source =
    structure "RasInfo" (num 0)
    ∷ field aptr "ri_Next"
    ∷ field long "ri_BitMap"
    ∷ field word "ri_RxOffset"
    ∷ field word "ri_RyOffset"
    ∷ label "ri_SIZEOF"
    ∷ []

-- `struct ColorMap`
abbrev pub color_map_fields : Fields
color_map_fields =
    ("Flags", int8)
    ∷ ("Type", int8)
    ∷ ("Count", int16)
    ∷ ("ColorTable", int32)
    ∷ ("cm_vpe", ptr)
    ∷ ("LowColorBits", int32)
    ∷ ("TransparencyPlane", int8)
    ∷ ("SpriteResolution", int8)
    ∷ ("SpriteResDefault", int8)
    ∷ ("AuxFlags", int8)
    ∷ ("cm_vp", ptr)
    ∷ ("NormalDisplayInfo", int32)
    ∷ ("CoerceDisplayInfo", int32)
    ∷ ("cm_batch_items", ptr)
    ∷ ("VPModeID", int32)
    ∷ ("PalExtra", ptr)
    ∷ ("SpriteBase_Even", int16)
    ∷ ("SpriteBase_Odd", int16)
    ∷ ("Bp_0_base", int16)
    ∷ ("Bp_1_base", int16)
    ∷ []

-- `STRUCTURE ColorMap`
abbrev pub color_map_source : List Directive
color_map_source =
    structure "ColorMap" (num 0)
    ∷ field ubyte "cm_Flags"
    ∷ field ubyte "cm_Type"
    ∷ field uword "cm_Count"
    ∷ field aptr "cm_ColorTable"
    ∷ field aptr "cm_vpe"
    ∷ field aptr "cm_LowColorBits"
    ∷ field ubyte "cm_TransparencyPlane"
    ∷ field ubyte "cm_SpriteResolution"
    ∷ field ubyte "cm_SpriteResDefault"
    ∷ field ubyte "cm_AuxFlags"
    ∷ field aptr "cm_vp"
    ∷ field aptr "cm_NormalDisplayInfo"
    ∷ field aptr "cm_CoerceDisplayInfo"
    ∷ field aptr "cm_batch_items"
    ∷ field ulong "cm_VPModeID"
    ∷ field aptr "cm_PalExtra"
    ∷ field uword "cm_SpriteBase_Even"
    ∷ field uword "cm_SpriteBase_Odd"
    ∷ field uword "cm_Bp_0_base"
    ∷ field uword "cm_Bp_1_base"
    ∷ label "cm_SIZEOF"
    ∷ []

-- The structures of this file, with the symbol of each field and of the size.
abbrev pub view_entries : List Entry
view_entries =
    in_order view_port_fields view_port_source (some "vp_SIZEOF")
    ∷ in_order view_fields view_source (some "v_SIZEOF")
    ∷ in_order view_extra_fields view_extra_source (some "ve_SIZEOF")
    ∷ in_order ras_info_fields ras_info_source (some "ri_SIZEOF")
    ∷ in_order color_map_fields color_map_source (some "cm_SIZEOF")
    ∷ []
