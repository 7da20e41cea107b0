-- ===== src/Layout/Intuition/Intuition.antt =====
-- Structures of targets/m68k-amigaos/ndk/include_h/intuition/intuition.h and of include_i/intuition/intuition.i beside it: `Menu` to `Requester`.
use amiga_dev.Common.{some, List, [], ◌∷◌}
use amiga_dev.Layout.{Fields, array, int16, int32, int8, ptr}
use amiga_dev.Layout.Asm.{
  Directive, aptr, byte, field, label, long, num, struct, structure, ubyte, word,
}
use amiga_dev.Layout.Agree.{Entry, entry, in_order}

-- `struct Menu`
abbrev pub menu_fields : Fields
menu_fields =
    ("NextMenu", ptr)
    ∷ ("LeftEdge", int16)
    ∷ ("TopEdge", int16)
    ∷ ("Width", int16)
    ∷ ("Height", int16)
    ∷ ("Flags", int16)
    ∷ ("MenuName", ptr)
    ∷ ("FirstItem", ptr)
    ∷ ("JazzX", int16)
    ∷ ("JazzY", int16)
    ∷ ("BeatX", int16)
    ∷ ("BeatY", int16)
    ∷ []

-- `STRUCTURE Menu`
abbrev pub menu_source : List Directive
menu_source =
    structure "Menu" (num 0)
    ∷ field aptr "mu_NextMenu"
    ∷ field word "mu_LeftEdge"
    ∷ field word "mu_TopEdge"
    ∷ field word "mu_Width"
    ∷ field word "mu_Height"
    ∷ field word "mu_Flags"
    ∷ field aptr "mu_MenuName"
    ∷ field aptr "mu_FirstItem"
    ∷ field word "mu_JazzX"
    ∷ field word "mu_JazzY"
    ∷ field word "mu_BeatX"
    ∷ field word "mu_BeatY"
    ∷ label "mu_SIZEOF"
    ∷ []

-- `struct MenuItem`
abbrev pub menu_item_fields : Fields
menu_item_fields =
    ("NextItem", ptr)
    ∷ ("LeftEdge", int16)
    ∷ ("TopEdge", int16)
    ∷ ("Width", int16)
    ∷ ("Height", int16)
    ∷ ("Flags", int16)
    ∷ ("MutualExclude", int32)
    ∷ ("ItemFill", int32)
    ∷ ("SelectFill", int32)
    ∷ ("Command", int8)
    ∷ ("SubItem", ptr)
    ∷ ("NextSelect", int16)
    ∷ []

-- `STRUCTURE MenuItem`
abbrev pub menu_item_source : List Directive
menu_item_source =
    structure "MenuItem" (num 0)
    ∷ field aptr "mi_NextItem"
    ∷ field word "mi_LeftEdge"
    ∷ field word "mi_TopEdge"
    ∷ field word "mi_Width"
    ∷ field word "mi_Height"
    ∷ field word "mi_Flags"
    ∷ field long "mi_MutualExclude"
    ∷ field aptr "mi_ItemFill"
    ∷ field aptr "mi_SelectFill"
    ∷ field byte "mi_Command"
    ∷ field byte "mi_KludgeFill00"
    ∷ field aptr "mi_SubItem"
    ∷ field word "mi_NextSelect"
    ∷ label "mi_SIZEOF"
    ∷ []

-- `struct Requester`
abbrev pub requester_fields : Fields
requester_fields =
    ("OlderRequest", ptr)
    ∷ ("LeftEdge", int16)
    ∷ ("TopEdge", int16)
    ∷ ("Width", int16)
    ∷ ("Height", int16)
    ∷ ("RelLeft", int16)
    ∷ ("RelTop", int16)
    ∷ ("ReqGadget", ptr)
    ∷ ("ReqBorder", ptr)
    ∷ ("ReqText", ptr)
    ∷ ("Flags", int16)
    ∷ ("BackFill", int8)
    ∷ ("ReqLayer", ptr)
    ∷ ("ReqPad1", array 32 int8)
    ∷ ("ImageBMap", ptr)
    ∷ ("RWindow", ptr)
    ∷ ("ReqImage", ptr)
    ∷ ("ReqPad2", array 32 int8)
    ∷ []

-- `STRUCTURE Requester`
abbrev pub requester_source : List Directive
requester_source =
    structure "Requester" (num 0)
    ∷ field aptr "rq_OlderRequest"
    ∷ field word "rq_LeftEdge"
    ∷ field word "rq_TopEdge"
    ∷ field word "rq_Width"
    ∷ field word "rq_Height"
    ∷ field word "rq_RelLeft"
    ∷ field word "rq_RelTop"
    ∷ field aptr "rq_ReqGadget"
    ∷ field aptr "rq_ReqBorder"
    ∷ field aptr "rq_ReqText"
    ∷ field word "rq_Flags"
    ∷ field ubyte "rq_BackFill"
    ∷ field byte "rq_KludgeFill00"
    ∷ field aptr "rq_ReqLayer"
    ∷ struct "rq_ReqPad1" (num 32)
    ∷ field aptr "rq_ImageBMap"
    ∷ field aptr "rq_RWindow"
    ∷ field aptr "rq_ReqImage"
    ∷ struct "rq_ReqPad2" (num 32)
    ∷ label "rq_SIZEOF"
    ∷ []

-- The structures of this file, with the symbol of each field and of the size.
abbrev pub intuition_entries : List Entry
intuition_entries =
    in_order menu_fields menu_source (some "mu_SIZEOF")
    ∷ entry menu_item_fields menu_item_source
        ("mi_NextItem" ∷ "mi_LeftEdge" ∷ "mi_TopEdge" ∷ "mi_Width" ∷ "mi_Height" ∷ "mi_Flags"
          ∷ "mi_MutualExclude" ∷ "mi_ItemFill" ∷ "mi_SelectFill" ∷ "mi_Command" ∷ "mi_SubItem"
          ∷ "mi_NextSelect" ∷ [])
        (some "mi_SIZEOF")
    ∷ entry requester_fields requester_source
        ("rq_OlderRequest" ∷ "rq_LeftEdge" ∷ "rq_TopEdge" ∷ "rq_Width" ∷ "rq_Height" ∷ "rq_RelLeft"
          ∷ "rq_RelTop" ∷ "rq_ReqGadget" ∷ "rq_ReqBorder" ∷ "rq_ReqText" ∷ "rq_Flags"
          ∷ "rq_BackFill" ∷ "rq_ReqLayer" ∷ "rq_ReqPad1" ∷ "rq_ImageBMap" ∷ "rq_RWindow"
          ∷ "rq_ReqImage" ∷ "rq_ReqPad2" ∷ [])
        (some "rq_SIZEOF")
    ∷ []
