-- ===== src/Layout/Intuition/Imageclass.antt =====
-- Structures of targets/m68k-amigaos/ndk/include_h/intuition/imageclass.h and of include_i/intuition/imageclass.i beside it.
use amiga_dev.Common.{none, List, [], ◌∷◌}
use amiga_dev.Layout.{Fields, int16, int32, ptr, struct_of}
use amiga_dev.Layout.Asm.{Directive, aptr, field, long, num, structure, ulong, word}
use amiga_dev.Layout.Agree.{Entry, entry}

-- `struct impFrameBox`
abbrev pub imp_frame_box_fields : Fields
imp_frame_box_fields =
    ("MethodID", int32)
    ∷ ("imp_ContentsBox", ptr)
    ∷ ("imp_FrameBox", ptr)
    ∷ ("imp_DrInfo", ptr)
    ∷ ("imp_FrameFlags", int32)
    ∷ []

-- `STRUCTURE impFrameBox`
abbrev pub imp_frame_box_source : List Directive
imp_frame_box_source =
    structure "impFrameBox" (num 4)
    ∷ field aptr "impf_ContentsBox"
    ∷ field aptr "impf_FrameBox"
    ∷ field aptr "impf_DrInfo"
    ∷ field long "impf_FrameFlags"
    ∷ []

-- `struct impDraw`
abbrev pub imp_draw_fields : Fields
imp_draw_fields =
    ("MethodID", int32)
    ∷ ("imp_RPort", ptr)
    ∷ ("imp_Offset", struct_of (("X", int16) ∷ ("Y", int16) ∷ []))
    ∷ ("imp_State", int32)
    ∷ ("imp_DrInfo", ptr)
    ∷ ("imp_Dimensions", struct_of (("Width", int16) ∷ ("Height", int16) ∷ []))
    ∷ []

-- `STRUCTURE impDraw`
abbrev pub imp_draw_source : List Directive
imp_draw_source =
    structure "impDraw" (num 4)
    ∷ field aptr "impd_RPort"
    ∷ field word "impd_OffsetX"
    ∷ field word "impd_OffsetY"
    ∷ field ulong "impd_State"
    ∷ field aptr "impd_DrInfo"
    ∷ field word "impd_DimensionsWidth"
    ∷ field word "impd_DimensionsHeight"
    ∷ []

-- The structures of this file, with the symbol of each field and of the size.
abbrev pub imageclass_entries : List Entry
imageclass_entries =
    entry imp_frame_box_fields imp_frame_box_source
      ("impFrameBox" ∷ "impf_ContentsBox" ∷ "impf_FrameBox" ∷ "impf_DrInfo" ∷ "impf_FrameFlags"
        ∷ [])
      (none)
    ∷ entry imp_draw_fields imp_draw_source
        ("impDraw" ∷ "impd_RPort" ∷ "impd_OffsetX" ∷ "impd_State" ∷ "impd_DrInfo"
          ∷ "impd_DimensionsWidth" ∷ [])
        (none)
    ∷ []
