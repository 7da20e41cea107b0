-- ===== src/Layout/Intuition/IntuitionFromWindow.antt =====
-- Structures of targets/m68k-amigaos/ndk/include_h/intuition/intuition.h and of include_i/intuition/intuition.i beside it: `Window` to `NewWindow`.
use amiga_dev.Common.{some, List, [], ◌∷◌}
use amiga_dev.Layout.{Fields, int16, int32, int8, ptr}
use amiga_dev.Layout.Asm.{Directive, aptr, byte, field, label, long, num, structure, ulong, word}
use amiga_dev.Layout.Agree.{Entry, in_order}

-- `struct Window`
abbrev pub window_fields : Fields
window_fields =
    ("NextWindow", ptr)
    ∷ ("LeftEdge", int16)
    ∷ ("TopEdge", int16)
    ∷ ("Width", int16)
    ∷ ("Height", int16)
    ∷ ("MouseY", int16)
    ∷ ("MouseX", int16)
    ∷ ("MinWidth", int16)
    ∷ ("MinHeight", int16)
    ∷ ("MaxWidth", int16)
    ∷ ("MaxHeight", int16)
    ∷ ("Flags", int32)
    ∷ ("MenuStrip", ptr)
    ∷ ("Title", ptr)
    ∷ ("FirstRequest", ptr)
    ∷ ("DMRequest", ptr)
    ∷ ("ReqCount", int16)
    ∷ ("WScreen", ptr)
    ∷ ("RPort", ptr)
    ∷ ("BorderLeft", int8)
    ∷ ("BorderTop", int8)
    ∷ ("BorderRight", int8)
    ∷ ("BorderBottom", int8)
    ∷ ("BorderRPort", ptr)
    ∷ ("FirstGadget", ptr)
    ∷ ("Parent", ptr)
    ∷ ("Descendant", ptr)
    ∷ ("Pointer", ptr)
    ∷ ("PtrHeight", int8)
    ∷ ("PtrWidth", int8)
    ∷ ("XOffset", int8)
    ∷ ("YOffset", int8)
    ∷ ("IDCMPFlags", int32)
    ∷ ("UserPort", ptr)
    ∷ ("WindowPort", ptr)
    ∷ ("MessageKey", ptr)
    ∷ ("DetailPen", int8)
    ∷ ("BlockPen", int8)
    ∷ ("CheckMark", ptr)
    ∷ ("ScreenTitle", ptr)
    ∷ ("GZZMouseX", int16)
    ∷ ("GZZMouseY", int16)
    ∷ ("GZZWidth", int16)
    ∷ ("GZZHeight", int16)
    ∷ ("ExtData", ptr)
    ∷ ("UserData", ptr)
    ∷ ("WLayer", ptr)
    ∷ ("IFont", ptr)
    ∷ ("MoreFlags", int32)
    ∷ []

-- `STRUCTURE Window`
abbrev pub window_source : List Directive
window_source =
    structure "Window" (num 0)
    ∷ field aptr "wd_NextWindow"
    ∷ field word "wd_LeftEdge"
    ∷ field word "wd_TopEdge"
    ∷ field word "wd_Width"
    ∷ field word "wd_Height"
    ∷ field word "wd_MouseY"
    ∷ field word "wd_MouseX"
    ∷ field word "wd_MinWidth"
    ∷ field word "wd_MinHeight"
    ∷ field word "wd_MaxWidth"
    ∷ field word "wd_MaxHeight"
    ∷ field long "wd_Flags"
    ∷ field aptr "wd_MenuStrip"
    ∷ field aptr "wd_Title"
    ∷ field aptr "wd_FirstRequest"
    ∷ field aptr "wd_DMRequest"
    ∷ field word "wd_ReqCount"
    ∷ field aptr "wd_WScreen"
    ∷ field aptr "wd_RPort"
    ∷ field byte "wd_BorderLeft"
    ∷ field byte "wd_BorderTop"
    ∷ field byte "wd_BorderRight"
    ∷ field byte "wd_BorderBottom"
    ∷ field aptr "wd_BorderRPort"
    ∷ field aptr "wd_FirstGadget"
    ∷ field aptr "wd_Parent"
    ∷ field aptr "wd_Descendant"
    ∷ field aptr "wd_Pointer"
    ∷ field byte "wd_PtrHeight"
    ∷ field byte "wd_PtrWidth"
    ∷ field byte "wd_XOffset"
    ∷ field byte "wd_YOffset"
    ∷ field ulong "wd_IDCMPFlags"
    ∷ field aptr "wd_UserPort"
    ∷ field aptr "wd_WindowPort"
    ∷ field aptr "wd_MessageKey"
    ∷ field byte "wd_DetailPen"
    ∷ field byte "wd_BlockPen"
    ∷ field aptr "wd_CheckMark"
    ∷ field aptr "wd_ScreenTitle"
    ∷ field word "wd_GZZMouseX"
    ∷ field word "wd_GZZMouseY"
    ∷ field word "wd_GZZWidth"
    ∷ field word "wd_GZZHeight"
    ∷ field aptr "wd_ExtData"
    ∷ field aptr "wd_UserData"
    ∷ field aptr "wd_WLayer"
    ∷ field aptr "wd_IFont"
    ∷ field ulong "wd_MoreFlags"
    ∷ label "wd_Size"
    ∷ label "wd_SIZEOF"
    ∷ []

-- `struct NewWindow`
abbrev pub new_window_fields : Fields
new_window_fields =
    ("LeftEdge", int16)
    ∷ ("TopEdge", int16)
    ∷ ("Width", int16)
    ∷ ("Height", int16)
    ∷ ("DetailPen", int8)
    ∷ ("BlockPen", int8)
    ∷ ("IDCMPFlags", int32)
    ∷ ("Flags", int32)
    ∷ ("FirstGadget", ptr)
    ∷ ("CheckMark", ptr)
    ∷ ("Title", ptr)
    ∷ ("Screen", ptr)
    ∷ ("BitMap", ptr)
    ∷ ("MinWidth", int16)
    ∷ ("MinHeight", int16)
    ∷ ("MaxWidth", int16)
    ∷ ("MaxHeight", int16)
    ∷ ("Type", int16)
    ∷ []

-- `STRUCTURE NewWindow`
abbrev pub new_window_source : List Directive
new_window_source =
    structure "NewWindow" (num 0)
    ∷ field word "nw_LeftEdge"
    ∷ field word "nw_TopEdge"
    ∷ field word "nw_Width"
    ∷ field word "nw_Height"
    ∷ field byte "nw_DetailPen"
    ∷ field byte "nw_BlockPen"
    ∷ field long "nw_IDCMPFlags"
    ∷ field long "nw_Flags"
    ∷ field aptr "nw_FirstGadget"
    ∷ field aptr "nw_CheckMark"
    ∷ field aptr "nw_Title"
    ∷ field aptr "nw_Screen"
    ∷ field aptr "nw_BitMap"
    ∷ field word "nw_MinWidth"
    ∷ field word "nw_MinHeight"
    ∷ field word "nw_MaxWidth"
    ∷ field word "nw_MaxHeight"
    ∷ field word "nw_Type"
    ∷ label "nw_SIZE"
    ∷ label "nw_SIZEOF"
    ∷ []

-- The structures of this file, with the symbol of each field and of the size.
abbrev pub intuition_from_window_entries : List Entry
intuition_from_window_entries =
    in_order window_fields window_source (some "wd_Size")
    ∷ in_order new_window_fields new_window_source (some "nw_SIZE")
    ∷ []
