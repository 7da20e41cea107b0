-- ===== src/Layout/Intuition/IntuitionFromIntuimessage.antt =====
-- Structures of targets/m68k-amigaos/ndk/include_h/intuition/intuition.h and of include_i/intuition/intuition.i beside it: `IntuiMessage` to `IBox`.
use amiga_dev.Common.{some, none, List, [], ◌∷◌}
use amiga_dev.Layout.{Fields, int16, int32, ptr, struct_of}
use amiga_dev.Layout.Asm.{Directive, aptr, field, label, long, num, struct, structure, sym, word}
use amiga_dev.Layout.Agree.{Entry, in_order}
use amiga_dev.Layout.Exec.Ports.{message_fields}

-- `struct IntuiMessage`
abbrev pub intui_message_fields : Fields
intui_message_fields =
    ("ExecMessage", struct_of message_fields)
    ∷ ("Class", int32)
    ∷ ("Code", int16)
    ∷ ("Qualifier", int16)
    ∷ ("IAddress", int32)
    ∷ ("MouseX", int16)
    ∷ ("MouseY", int16)
    ∷ ("Seconds", int32)
    ∷ ("Micros", int32)
    ∷ ("IDCMPWindow", ptr)
    ∷ ("SpecialLink", ptr)
    ∷ []

-- `STRUCTURE IntuiMessage`
abbrev pub intui_message_source : List Directive
intui_message_source =
    structure "IntuiMessage" (num 0)
    ∷ struct "im_ExecMessage" (sym "MN_SIZE")
    ∷ field long "im_Class"
    ∷ field word "im_Code"
    ∷ field word "im_Qualifier"
    ∷ field aptr "im_IAddress"
    ∷ field word "im_MouseX"
    ∷ field word "im_MouseY"
    ∷ field long "im_Seconds"
    ∷ field long "im_Micros"
    ∷ field aptr "im_IDCMPWindow"
    ∷ field aptr "im_SpecialLink"
    ∷ label "im_SIZEOF"
    ∷ []

-- `struct ExtIntuiMessage`
abbrev pub ext_intui_message_fields : Fields
ext_intui_message_fields =
    ("eim_IntuiMessage", struct_of intui_message_fields) ∷ ("eim_TabletData", ptr) ∷ []

-- `STRUCTURE ExtIntuiMessage`
abbrev pub ext_intui_message_source : List Directive
ext_intui_message_source =
    structure "ExtIntuiMessage" (num 0)
    ∷ struct "eim_IntuiMessage" (sym "im_SIZEOF")
    ∷ field aptr "eim_TabletData"
    ∷ []

-- `struct IBox`
abbrev pub i_box_fields : Fields
i_box_fields = ("Left", int16) ∷ ("Top", int16) ∷ ("Width", int16) ∷ ("Height", int16) ∷ []

-- `STRUCTURE IBox`
abbrev pub i_box_source : List Directive
i_box_source =
    structure "IBox" (num 0)
    ∷ field word "ibox_Left"
    ∷ field word "ibox_Top"
    ∷ field word "ibox_Width"
    ∷ field word "ibox_Height"
    ∷ label "ibox_SIZEOF"
    ∷ []

-- The structures of this file, with the symbol of each field and of the size.
abbrev pub intuition_from_intuimessage_entries : List Entry
intuition_from_intuimessage_entries =
    in_order intui_message_fields intui_message_source (some "im_SIZEOF")
    ∷ in_order ext_intui_message_fields ext_intui_message_source none
    ∷ in_order i_box_fields i_box_source (some "ibox_SIZEOF")
    ∷ []
