-- ===== src/Layout/Intuition/IntuitionFromStringinfo.antt =====
-- Structures of targets/m68k-amigaos/ndk/include_h/intuition/intuition.h and of include_i/intuition/intuition.i beside it: `StringInfo` to `Image`.
use amiga_dev.Common.{some, List, [], ◌∷◌}
use amiga_dev.Layout.{Fields, int16, int32, int8, ptr}
use amiga_dev.Layout.Asm.{Directive, aptr, byte, field, label, long, num, structure, word}
use amiga_dev.Layout.Agree.{Entry, entry, in_order}

-- `struct StringInfo`
abbrev pub string_info_fields : Fields
string_info_fields =
    ("Buffer", ptr)
    ∷ ("UndoBuffer", ptr)
    ∷ ("BufferPos", int16)
    ∷ ("MaxChars", int16)
    ∷ ("DispPos", int16)
    ∷ ("UndoPos", int16)
    ∷ ("NumChars", int16)
    ∷ ("DispCount", int16)
    ∷ ("CLeft", int16)
    ∷ ("CTop", int16)
    ∷ ("Extension", ptr)
    ∷ ("LongInt", int32)
    ∷ ("AltKeyMap", ptr)
    ∷ []

-- `STRUCTURE StringInfo`
abbrev pub string_info_source : List Directive
string_info_source =
    structure "StringInfo" (num 0)
    ∷ field aptr "si_Buffer"
    ∷ field aptr "si_UndoBuffer"
    ∷ field word "si_BufferPos"
    ∷ field word "si_MaxChars"
    ∷ field word "si_DispPos"
    ∷ field word "si_UndoPos"
    ∷ field word "si_NumChars"
    ∷ field word "si_DispCount"
    ∷ field word "si_CLeft"
    ∷ field word "si_CTop"
    ∷ field aptr "si_Extension"
    ∷ field long "si_LongInt"
    ∷ field aptr "si_AltKeyMap"
    ∷ label "si_SIZEOF"
    ∷ []

-- `struct IntuiText`
abbrev pub intui_text_fields : Fields
intui_text_fields =
    ("FrontPen", int8)
    ∷ ("BackPen", int8)
    ∷ ("DrawMode", int8)
    ∷ ("LeftEdge", int16)
    ∷ ("TopEdge", int16)
    ∷ ("ITextFont", ptr)
    ∷ ("IText", ptr)
    ∷ ("NextText", ptr)
    ∷ []

-- `STRUCTURE IntuiText`
abbrev pub intui_text_source : List Directive
intui_text_source =
    structure "IntuiText" (num 0)
    ∷ field byte "it_FrontPen"
    ∷ field byte "it_BackPen"
    ∷ field byte "it_DrawMode"
    ∷ field byte "it_KludgeFill00"
    ∷ field word "it_LeftEdge"
    ∷ field word "it_TopEdge"
    ∷ field aptr "it_ITextFont"
    ∷ field aptr "it_IText"
    ∷ field aptr "it_NextText"
    ∷ label "it_SIZEOF"
    ∷ []

-- `struct Border`
abbrev pub border_fields : Fields
border_fields =
    ("LeftEdge", int16)
    ∷ ("TopEdge", int16)
    ∷ ("FrontPen", int8)
    ∷ ("BackPen", int8)
    ∷ ("DrawMode", int8)
    ∷ ("Count", int8)
    ∷ ("XY", ptr)
    ∷ ("NextBorder", ptr)
    ∷ []

-- `STRUCTURE Border`
abbrev pub border_source : List Directive
border_source =
    structure "Border" (num 0)
    ∷ field word "bd_LeftEdge"
    ∷ field word "bd_TopEdge"
    ∷ field byte "bd_FrontPen"
    ∷ field byte "bd_BackPen"
    ∷ field byte "bd_DrawMode"
    ∷ field byte "bd_Count"
    ∷ field aptr "bd_XY"
    ∷ field aptr "bd_NextBorder"
    ∷ label "bd_SIZEOF"
    ∷ []

-- `struct Image`
abbrev pub image_fields : Fields
image_fields =
    ("LeftEdge", int16)
    ∷ ("TopEdge", int16)
    ∷ ("Width", int16)
    ∷ ("Height", int16)
    ∷ ("Depth", int16)
    ∷ ("ImageData", ptr)
    ∷ ("PlanePick", int8)
    ∷ ("PlaneOnOff", int8)
    ∷ ("NextImage", ptr)
    ∷ []

-- `STRUCTURE Image`
abbrev pub image_source : List Directive
image_source =
    structure "Image" (num 0)
    ∷ field word "ig_LeftEdge"
    ∷ field word "ig_TopEdge"
    ∷ field word "ig_Width"
    ∷ field word "ig_Height"
    ∷ field word "ig_Depth"
    ∷ field aptr "ig_ImageData"
    ∷ field byte "ig_PlanePick"
    ∷ field byte "ig_PlaneOnOff"
    ∷ field aptr "ig_NextImage"
    ∷ label "ig_SIZEOF"
    ∷ []

-- The structures of this file, with the symbol of each field and of the size.
abbrev pub intuition_from_stringinfo_entries : List Entry
intuition_from_stringinfo_entries =
    in_order string_info_fields string_info_source (some "si_SIZEOF")
    ∷ entry intui_text_fields intui_text_source
        ("it_FrontPen" ∷ "it_BackPen" ∷ "it_DrawMode" ∷ "it_LeftEdge" ∷ "it_TopEdge"
          ∷ "it_ITextFont" ∷ "it_IText" ∷ "it_NextText" ∷ [])
        (some "it_SIZEOF")
    ∷ in_order border_fields border_source (some "bd_SIZEOF")
    ∷ in_order image_fields image_source (some "ig_SIZEOF")
    ∷ []
