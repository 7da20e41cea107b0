-- ===== src/Layout/Intuition/IntuitionFromGadget.antt =====
-- Structures of targets/m68k-amigaos/ndk/include_h/intuition/intuition.h and of include_i/intuition/intuition.i beside it: `Gadget` to `PropInfo`.
use amiga_dev.Common.{some, List, [], ◌∷◌}
use amiga_dev.Layout.{Fields, int16, int32, ptr}
use amiga_dev.Layout.Asm.{Directive, aptr, field, label, long, num, structure, ulong, word}
use amiga_dev.Layout.Agree.{Entry, in_order}

-- `struct Gadget`
abbrev pub gadget_fields : Fields
gadget_fields =
    ("NextGadget", ptr)
    ∷ ("LeftEdge", int16)
    ∷ ("TopEdge", int16)
    ∷ ("Width", int16)
    ∷ ("Height", int16)
    ∷ ("Flags", int16)
    ∷ ("Activation", int16)
    ∷ ("GadgetType", int16)
    ∷ ("GadgetRender", int32)
    ∷ ("SelectRender", int32)
    ∷ ("GadgetText", ptr)
    ∷ ("MutualExclude", int32)
    ∷ ("SpecialInfo", int32)
    ∷ ("GadgetID", int16)
    ∷ ("UserData", int32)
    ∷ []

-- `STRUCTURE Gadget`
abbrev pub gadget_source : List Directive
gadget_source =
    structure "Gadget" (num 0)
    ∷ field aptr "gg_NextGadget"
    ∷ field word "gg_LeftEdge"
    ∷ field word "gg_TopEdge"
    ∷ field word "gg_Width"
    ∷ field word "gg_Height"
    ∷ field word "gg_Flags"
    ∷ field word "gg_Activation"
    ∷ field word "gg_GadgetType"
    ∷ field aptr "gg_GadgetRender"
    ∷ field aptr "gg_SelectRender"
    ∷ field aptr "gg_GadgetText"
    ∷ field long "gg_MutualExclude"
    ∷ field aptr "gg_SpecialInfo"
    ∷ field word "gg_GadgetID"
    ∷ field aptr "gg_UserData"
    ∷ label "gg_SIZEOF"
    ∷ []

-- `struct ExtGadget`
abbrev pub ext_gadget_fields : Fields
ext_gadget_fields =
    ("NextGadget", ptr)
    ∷ ("LeftEdge", int16)
    ∷ ("TopEdge", int16)
    ∷ ("Width", int16)
    ∷ ("Height", int16)
    ∷ ("Flags", int16)
    ∷ ("Activation", int16)
    ∷ ("GadgetType", int16)
    ∷ ("GadgetRender", int32)
    ∷ ("SelectRender", int32)
    ∷ ("GadgetText", ptr)
    ∷ ("MutualExclude", int32)
    ∷ ("SpecialInfo", int32)
    ∷ ("GadgetID", int16)
    ∷ ("UserData", int32)
    ∷ ("MoreFlags", int32)
    ∷ ("BoundsLeftEdge", int16)
    ∷ ("BoundsTopEdge", int16)
    ∷ ("BoundsWidth", int16)
    ∷ ("BoundsHeight", int16)
    ∷ []

-- `STRUCTURE ExtGadget`
abbrev pub ext_gadget_source : List Directive
ext_gadget_source =
    structure "ExtGadget" (num 0)
    ∷ field aptr "egg_NextGadget"
    ∷ field word "egg_LeftEdge"
    ∷ field word "egg_TopEdge"
    ∷ field word "egg_Width"
    ∷ field word "egg_Height"
    ∷ field word "egg_Flags"
    ∷ field word "egg_Activation"
    ∷ field word "egg_GadgetType"
    ∷ field aptr "egg_GadgetRender"
    ∷ field aptr "egg_SelectRender"
    ∷ field aptr "egg_GadgetText"
    ∷ field long "egg_MutualExclude"
    ∷ field aptr "egg_SpecialInfo"
    ∷ field word "egg_GadgetID"
    ∷ field aptr "egg_UserData"
    ∷ field ulong "egg_MoreFlags"
    ∷ field word "egg_BoundsLeftEdge"
    ∷ field word "egg_BoundsTopEdge"
    ∷ field word "egg_BoundsWidth"
    ∷ field word "egg_BoundsHeight"
    ∷ label "egg_SIZEOF"
    ∷ []

-- `struct BoolInfo`
abbrev pub bool_info_fields : Fields
bool_info_fields = ("Flags", int16) ∷ ("Mask", ptr) ∷ ("Reserved", int32) ∷ []

-- `STRUCTURE BoolInfo`
abbrev pub bool_info_source : List Directive
bool_info_source =
    structure "BoolInfo" (num 0)
    ∷ field word "bi_Flags"
    ∷ field aptr "bi_Mask"
    ∷ field long "bi_Reserved"
    ∷ label "bi_SIZEOF"
    ∷ []

-- `struct PropInfo`
abbrev pub prop_info_fields : Fields
prop_info_fields =
    ("Flags", int16)
    ∷ ("HorizPot", int16)
    ∷ ("VertPot", int16)
    ∷ ("HorizBody", int16)
    ∷ ("VertBody", int16)
    ∷ ("CWidth", int16)
    ∷ ("CHeight", int16)
    ∷ ("HPotRes", int16)
    ∷ ("VPotRes", int16)
    ∷ ("LeftBorder", int16)
    ∷ ("TopBorder", int16)
    ∷ []

-- `STRUCTURE PropInfo`
abbrev pub prop_info_source : List Directive
prop_info_source =
    structure "PropInfo" (num 0)
    ∷ field word "pi_Flags"
    ∷ field word "pi_HorizPot"
    ∷ field word "pi_VertPot"
    ∷ field word "pi_HorizBody"
    ∷ field word "pi_VertBody"
    ∷ field word "pi_CWidth"
    ∷ field word "pi_CHeight"
    ∷ field word "pi_HPotRes"
    ∷ field word "pi_VPotRes"
    ∷ field word "pi_LeftBorder"
    ∷ field word "pi_TopBorder"
    ∷ label "pi_SIZEOF"
    ∷ []

-- The structures of this file, with the symbol of each field and of the size.
abbrev pub intuition_from_gadget_entries : List Entry
intuition_from_gadget_entries =
    in_order gadget_fields gadget_source (some "gg_SIZEOF")
    ∷ in_order ext_gadget_fields ext_gadget_source (some "egg_SIZEOF")
    ∷ in_order bool_info_fields bool_info_source (some "bi_SIZEOF")
    ∷ in_order prop_info_fields prop_info_source (some "pi_SIZEOF")
    ∷ []
