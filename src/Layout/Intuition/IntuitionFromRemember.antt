-- ===== src/Layout/Intuition/IntuitionFromRemember.antt =====
-- Structures of targets/m68k-amigaos/ndk/include_h/intuition/intuition.h and of include_i/intuition/intuition.i beside it: `Remember` to `TabletHookData`.
use amiga_dev.Common.{some, List, [], ◌∷◌}
use amiga_dev.Layout.{Fields, int16, int32, ptr}
use amiga_dev.Layout.Asm.{Directive, aptr, field, label, long, num, structure, ulong, uword, word}
use amiga_dev.Layout.Agree.{Entry, in_order}

-- `struct Remember`
abbrev pub remember_fields : Fields
remember_fields = ("NextRemember", ptr) ∷ ("RememberSize", int32) ∷ ("Memory", ptr) ∷ []

-- `STRUCTURE Remember`
abbrev pub remember_source : List Directive
remember_source =
    structure "Remember" (num 0)
    ∷ field aptr "rm_NextRemember"
    ∷ field long "rm_RememberSize"
    ∷ field aptr "rm_Memory"
    ∷ label "rm_SIZEOF"
    ∷ []

-- `struct ColorSpec`
abbrev pub color_spec_fields : Fields
color_spec_fields = ("ColorIndex", int16) ∷ ("Red", int16) ∷ ("Green", int16) ∷ ("Blue", int16) ∷ []

-- `STRUCTURE ColorSpec`
abbrev pub color_spec_source : List Directive
color_spec_source =
    structure "ColorSpec" (num 0)
    ∷ field word "cs_ColorIndex"
    ∷ field uword "cs_Red"
    ∷ field uword "cs_Green"
    ∷ field uword "cs_Blue"
    ∷ label "cs_SIZEOF"
    ∷ []

-- `struct EasyStruct`
abbrev pub easy_struct_fields : Fields
easy_struct_fields =
    ("es_StructSize", int32)
    ∷ ("es_Flags", int32)
    ∷ ("es_Title", ptr)
    ∷ ("es_TextFormat", ptr)
    ∷ ("es_GadgetFormat", ptr)
    ∷ []

-- `STRUCTURE EasyStruct`
abbrev pub easy_struct_source : List Directive
easy_struct_source =
    structure "EasyStruct" (num 0)
    ∷ field ulong "es_StructSize"
    ∷ field ulong "es_Flags"
    ∷ field aptr "es_Title"
    ∷ field aptr "es_TextFormat"
    ∷ field aptr "es_GadgetFormat"
    ∷ label "EasyStruct_SIZEOF"
    ∷ []

-- `struct TabletData`
abbrev pub tablet_data_fields : Fields
tablet_data_fields =
    ("td_XFraction", int16)
    ∷ ("td_YFraction", int16)
    ∷ ("td_TabletX", int32)
    ∷ ("td_TabletY", int32)
    ∷ ("td_RangeX", int32)
    ∷ ("td_RangeY", int32)
    ∷ ("td_TagList", ptr)
    ∷ []

-- `STRUCTURE TabletData`
abbrev pub tablet_data_source : List Directive
tablet_data_source =
    structure "TabletData" (num 0)
    ∷ field uword "td_XFraction"
    ∷ field uword "td_YFraction"
    ∷ field ulong "td_TabletX"
    ∷ field ulong "td_TabletY"
    ∷ field ulong "td_RangeX"
    ∷ field ulong "td_RangeY"
    ∷ field aptr "td_TagList"
    ∷ label "td_SIZEOF"
    ∷ []

-- `struct TabletHookData`
abbrev pub tablet_hook_data_fields : Fields
tablet_hook_data_fields =
    ("thd_Screen", ptr)
    ∷ ("thd_Width", int32)
    ∷ ("thd_Height", int32)
    ∷ ("thd_ScreenChanged", int32)
    ∷ []

-- `STRUCTURE TabletHookData`
abbrev pub tablet_hook_data_source : List Directive
tablet_hook_data_source =
    structure "TabletHookData" (num 0)
    ∷ field aptr "thd_Screen"
    ∷ field ulong "thd_Width"
    ∷ field ulong "thd_Height"
    ∷ field long "thd_ScreenChanged"
    ∷ label "thd_SIZEOF"
    ∷ []

-- The structures of this file, with the symbol of each field and of the size.
abbrev pub intuition_from_remember_entries : List Entry
intuition_from_remember_entries =
    in_order remember_fields remember_source (some "rm_SIZEOF")
    ∷ in_order color_spec_fields color_spec_source (some "cs_SIZEOF")
    ∷ in_order easy_struct_fields easy_struct_source (some "EasyStruct_SIZEOF")
    ∷ in_order tablet_data_fields tablet_data_source (some "td_SIZEOF")
    ∷ in_order tablet_hook_data_fields tablet_hook_data_source (some "thd_SIZEOF")
    ∷ []
