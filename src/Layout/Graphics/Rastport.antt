-- ===== src/Layout/Graphics/Rastport.antt =====
-- Structures of targets/m68k-amigaos/ndk/include_h/graphics/rastport.h and of include_i/graphics/rastport.i beside it.
use amiga_dev.Common.{some, List, [], ◌∷◌}
use amiga_dev.Layout.{Fields, array, int16, int32, int8, ptr}
use amiga_dev.Layout.Asm.{Directive, aptr, byte, field, label, long, num, struct, structure, word}
use amiga_dev.Layout.Agree.{Entry, in_order}

-- `struct AreaInfo`
abbrev pub area_info_fields : Fields
area_info_fields =
    ("VctrTbl", ptr)
    ∷ ("VctrPtr", ptr)
    ∷ ("FlagTbl", ptr)
    ∷ ("FlagPtr", ptr)
    ∷ ("Count", int16)
    ∷ ("MaxCount", int16)
    ∷ ("FirstX", int16)
    ∷ ("FirstY", int16)
    ∷ []

-- `STRUCTURE AreaInfo`
abbrev pub area_info_source : List Directive
area_info_source =
    structure "AreaInfo" (num 0)
    ∷ field long "ai_VctrTbl"
    ∷ field long "ai_VctrPtr"
    ∷ field long "ai_FlagTbl"
    ∷ field long "ai_FlagPtr"
    ∷ field word "ai_Count"
    ∷ field word "ai_MaxCount"
    ∷ field word "ai_FirstX"
    ∷ field word "ai_FirstY"
    ∷ label "ai_SIZEOF"
    ∷ []

-- `struct TmpRas`
abbrev pub tmp_ras_fields : Fields
tmp_ras_fields = ("RasPtr", ptr) ∷ ("Size", int32) ∷ []

-- `STRUCTURE TmpRas`
abbrev pub tmp_ras_source : List Directive
tmp_ras_source =
    structure "TmpRas" (num 0)
    ∷ field aptr "tr_RasPtr"
    ∷ field long "tr_Size"
    ∷ label "tr_SIZEOF"
    ∷ []

-- `struct GelsInfo`
abbrev pub gels_info_fields : Fields
gels_info_fields =
    ("sprRsrvd", int8)
    ∷ ("Flags", int8)
    ∷ ("gelHead", ptr)
    ∷ ("gelTail", ptr)
    ∷ ("nextLine", ptr)
    ∷ ("lastColor", ptr)
    ∷ ("collHandler", ptr)
    ∷ ("leftmost", int16)
    ∷ ("rightmost", int16)
    ∷ ("topmost", int16)
    ∷ ("bottommost", int16)
    ∷ ("firstBlissObj", int32)
    ∷ ("lastBlissObj", int32)
    ∷ []

-- `STRUCTURE GelsInfo`
abbrev pub gels_info_source : List Directive
gels_info_source =
    structure "GelsInfo" (num 0)
    ∷ field byte "gi_sprRsrvd"
    ∷ field byte "gi_Flags"
    ∷ field aptr "gi_gelHead"
    ∷ field aptr "gi_gelTail"
    ∷ field aptr "gi_nextLine"
    ∷ field aptr "gi_lastColor"
    ∷ field aptr "gi_collHandler"
    ∷ field word "gi_leftmost"
    ∷ field word "gi_rightmost"
    ∷ field word "gi_topmost"
    ∷ field word "gi_bottommost"
    ∷ field aptr "gi_firstBlissObj"
    ∷ field aptr "gi_lastBlissObj"
    ∷ label "gi_SIZEOF"
    ∷ []

-- `struct RastPort`
abbrev pub rast_port_fields : Fields
rast_port_fields =
    ("Layer", ptr)
    ∷ ("BitMap", ptr)
    ∷ ("AreaPtrn", ptr)
    ∷ ("TmpRas", ptr)
    ∷ ("AreaInfo", ptr)
    ∷ ("GelsInfo", ptr)
    ∷ ("Mask", int8)
    ∷ ("FgPen", int8)
    ∷ ("BgPen", int8)
    ∷ ("AOlPen", int8)
    ∷ ("DrawMode", int8)
    ∷ ("AreaPtSz", int8)
    ∷ ("linpatcnt", int8)
    ∷ ("dummy", int8)
    ∷ ("Flags", int16)
    ∷ ("LinePtrn", int16)
    ∷ ("cp_x", int16)
    ∷ ("cp_y", int16)
    ∷ ("minterms", array 8 int8)
    ∷ ("PenWidth", int16)
    ∷ ("PenHeight", int16)
    ∷ ("Font", ptr)
    ∷ ("AlgoStyle", int8)
    ∷ ("TxFlags", int8)
    ∷ ("TxHeight", int16)
    ∷ ("TxWidth", int16)
    ∷ ("TxBaseline", int16)
    ∷ ("TxSpacing", int16)
    ∷ ("RP_User", ptr)
    ∷ ("longreserved", array 2 int32)
    ∷ ("wordreserved", array 7 int16)
    ∷ ("reserved", array 8 int8)
    ∷ []

-- `STRUCTURE RastPort`
abbrev pub rast_port_source : List Directive
rast_port_source =
    structure "RastPort" (num 0)
    ∷ field long "rp_Layer"
    ∷ field long "rp_BitMap"
    ∷ field long "rp_AreaPtrn"
    ∷ field long "rp_TmpRas"
    ∷ field long "rp_AreaInfo"
    ∷ field long "rp_GelsInfo"
    ∷ field byte "rp_Mask"
    ∷ field byte "rp_FgPen"
    ∷ field byte "rp_BgPen"
    ∷ field byte "rp_AOLPen"
    ∷ field byte "rp_DrawMode"
    ∷ field byte "rp_AreaPtSz"
    ∷ field byte "rp_linpatcnt"
    ∷ field byte "rp_Dummy"
    ∷ field word "rp_Flags"
    ∷ field word "rp_LinePtrn"
    ∷ field word "rp_cp_x"
    ∷ field word "rp_cp_y"
    ∷ struct "rp_minterms" (num 8)
    ∷ field word "rp_PenWidth"
    ∷ field word "rp_PenHeight"
    ∷ field long "rp_Font"
    ∷ field byte "rp_AlgoStyle"
    ∷ field byte "rp_TxFlags"
    ∷ field word "rp_TxHeight"
    ∷ field word "rp_TxWidth"
    ∷ field word "rp_TxBaseline"
    ∷ field word "rp_TxSpacing"
    ∷ field aptr "rp_RP_User"
    ∷ struct "rp_longreserved" (num 8)
    ∷ struct "rp_wordreserved" (num 14)
    ∷ struct "rp_reserved" (num 8)
    ∷ label "rp_SIZEOF"
    ∷ []

-- The structures of this file, with the symbol of each field and of the size.
abbrev pub rastport_entries : List Entry
rastport_entries =
    in_order area_info_fields area_info_source (some "ai_SIZEOF")
    ∷ in_order tmp_ras_fields tmp_ras_source (some "tr_SIZEOF")
    ∷ in_order gels_info_fields gels_info_source (some "gi_SIZEOF")
    ∷ in_order rast_port_fields rast_port_source (some "rp_SIZEOF")
    ∷ []
