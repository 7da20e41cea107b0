-- ===== src/Layout/Devices/Inputevent.antt =====
-- Structures of targets/m68k-amigaos/ndk/include_h/devices/inputevent.h and of include_i/devices/inputevent.i beside it.
use amiga_dev.Common.{some, List, [], ◌∷◌}
use amiga_dev.Layout.{Fields, int16, int32, int8, ptr, struct_of, union_of}
use amiga_dev.Layout.Asm.{
  Directive, aptr, field, label, num, struct, structure, sym, ubyte, ulong, uword, word,
}
use amiga_dev.Layout.Agree.{Entry, entry, in_order}
use amiga_dev.Layout.Devices.Timer.{timeval_fields}

-- `struct IEPointerPixel`
abbrev pub ie_pointer_pixel_fields : Fields
ie_pointer_pixel_fields =
    ("iepp_Screen", ptr) ∷ ("iepp_Position", struct_of (("X", int16) ∷ ("Y", int16) ∷ [])) ∷ []

-- `STRUCTURE IEPointerPixel`
abbrev pub ie_pointer_pixel_source : List Directive
ie_pointer_pixel_source =
    structure "IEPointerPixel" (num 0)
    ∷ field aptr "iepp_Screen"
    ∷ label "iepp_Position"
    ∷ field word "iepp_PositionX"
    ∷ field word "iepp_PositionY"
    ∷ label "IEPointerPixel_SIZEOF"
    ∷ []

-- `struct IEPointerTablet`
abbrev pub ie_pointer_tablet_fields : Fields
ie_pointer_tablet_fields =
    ("iept_Range", struct_of (("X", int16) ∷ ("Y", int16) ∷ []))
    ∷ ("iept_Value", struct_of (("X", int16) ∷ ("Y", int16) ∷ []))
    ∷ ("iept_Pressure", int16)
    ∷ []

-- `STRUCTURE IEPointerTablet`
abbrev pub ie_pointer_tablet_source : List Directive
ie_pointer_tablet_source =
    structure "IEPointerTablet" (num 0)
    ∷ label "iept_Range"
    ∷ field uword "iept_RangeX"
    ∷ field uword "iept_RangeY"
    ∷ label "iept_Value"
    ∷ field uword "iept_ValueX"
    ∷ field uword "iept_ValueY"
    ∷ field word "iept_Pressure"
    ∷ label "IEPointerTablet_SIZEOF"
    ∷ []

-- `struct IENewTablet`
abbrev pub ie_new_tablet_fields : Fields
ie_new_tablet_fields =
    ("ient_CallBack", ptr)
    ∷ ("ient_ScaledX", int16)
    ∷ ("ient_ScaledY", int16)
    ∷ ("ient_ScaledXFraction", int16)
    ∷ ("ient_ScaledYFraction", int16)
    ∷ ("ient_TabletX", int32)
    ∷ ("ient_TabletY", int32)
    ∷ ("ient_RangeX", int32)
    ∷ ("ient_RangeY", int32)
    ∷ ("ient_TagList", ptr)
    ∷ []

-- `STRUCTURE IENewTablet`
abbrev pub ie_new_tablet_source : List Directive
ie_new_tablet_source =
    structure "IENewTablet" (num 0)
    ∷ field aptr "ient_CallBack"
    ∷ field uword "ient_ScaledX"
    ∷ field uword "ient_ScaledY"
    ∷ field uword "ient_ScaledXFraction"
    ∷ field uword "ient_ScaledYFraction"
    ∷ field ulong "ient_TabletX"
    ∷ field ulong "ient_TabletY"
    ∷ field ulong "ient_RangeX"
    ∷ field ulong "ient_RangeY"
    ∷ field aptr "ient_TagList"
    ∷ label "IENewTablet_SIZEOF"
    ∷ []

-- `struct InputEvent`
abbrev pub input_event_fields : Fields
input_event_fields =
    ("ie_NextEvent", ptr)
    ∷ ("ie_Class", int8)
    ∷ ("ie_SubClass", int8)
    ∷ ("ie_Code", int16)
    ∷ ("ie_Qualifier", int16)
    ∷ (
      "ie_position",
      union_of (
          ("ie_xy", struct_of (("ie_x", int16) ∷ ("ie_y", int16) ∷ []))
          ∷ ("ie_addr", int32)
          ∷ (
            "ie_dead",
            struct_of (
                ("ie_prev1DownCode", int8)
                ∷ ("ie_prev1DownQual", int8)
                ∷ ("ie_prev2DownCode", int8)
                ∷ ("ie_prev2DownQual", int8)
                ∷ []),
          )
          ∷ []),
    )
    ∷ ("ie_TimeStamp", struct_of timeval_fields)
    ∷ []

-- `STRUCTURE InputEvent`
abbrev pub input_event_source : List Directive
input_event_source =
    structure "InputEvent" (num 0)
    ∷ field aptr "ie_NextEvent"
    ∷ field ubyte "ie_Class"
    ∷ field ubyte "ie_SubClass"
    ∷ field uword "ie_Code"
    ∷ field uword "ie_Qualifier"
    ∷ label "ie_EventAddress"
    ∷ label "ie_X"
    ∷ field ubyte "ie_Prev1DownCode"
    ∷ field ubyte "ie_Prev1DownQual"
    ∷ label "ie_Y"
    ∷ field ubyte "ie_Prev2DownCode"
    ∷ field ubyte "ie_Prev2DownQual"
    ∷ struct "ie_TimeStamp" (sym "TV_SIZE")
    ∷ label "ie_SIZEOF"
    ∷ []

-- The structures of this file, with the symbol of each field and of the size.
abbrev pub inputevent_entries : List Entry
inputevent_entries =
    entry ie_pointer_pixel_fields ie_pointer_pixel_source ("iepp_Screen" ∷ "iepp_Position" ∷ [])
      (some "IEPointerPixel_SIZEOF")
    ∷ entry ie_pointer_tablet_fields ie_pointer_tablet_source
        ("iept_Range" ∷ "iept_Value" ∷ "iept_Pressure" ∷ []) (some "IEPointerTablet_SIZEOF")
    ∷ in_order ie_new_tablet_fields ie_new_tablet_source (some "IENewTablet_SIZEOF")
    ∷ entry input_event_fields input_event_source
        ("ie_NextEvent" ∷ "ie_Class" ∷ "ie_SubClass" ∷ "ie_Code" ∷ "ie_Qualifier"
          ∷ "ie_Prev1DownCode" ∷ "ie_TimeStamp" ∷ [])
        (some "ie_SIZEOF")
    ∷ []
