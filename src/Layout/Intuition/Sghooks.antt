-- ===== src/Layout/Intuition/Sghooks.antt =====
-- Structures of targets/m68k-amigaos/ndk/include_h/intuition/sghooks.h and of include_i/intuition/sghooks.i beside it.
use amiga_dev.Common.{some, List, [], ◌∷◌}
use amiga_dev.Layout.{Fields, array, int16, int32, int8, ptr}
use amiga_dev.Layout.Asm.{
  Directive, aptr, field, label, long, num, struct, structure, ulong, uword, word,
}
use amiga_dev.Layout.Agree.{Entry, in_order}

-- `struct StringExtend`
abbrev pub string_extend_fields : Fields
string_extend_fields =
    ("Font", ptr)
    ∷ ("Pens", array 2 int8)
    ∷ ("ActivePens", array 2 int8)
    ∷ ("InitialModes", int32)
    ∷ ("EditHook", ptr)
    ∷ ("WorkBuffer", ptr)
    ∷ ("Reserved", array 4 int32)
    ∷ []

-- `STRUCTURE StringExtend`
abbrev pub string_extend_source : List Directive
string_extend_source =
    structure "StringExtend" (num 0)
    ∷ field aptr "sex_Font"
    ∷ struct "sex_Pens" (num 2)
    ∷ struct "sex_ActivePens" (num 2)
    ∷ field ulong "sex_InitialModes"
    ∷ field aptr "sex_EditHook"
    ∷ field aptr "sex_WorkBuffer"
    ∷ struct "sex_Reserved" (num 16)
    ∷ label "sex_SIZEOF"
    ∷ []

-- `struct SGWork`
abbrev pub sg_work_fields : Fields
sg_work_fields =
    ("Gadget", ptr)
    ∷ ("StringInfo", ptr)
    ∷ ("WorkBuffer", ptr)
    ∷ ("PrevBuffer", ptr)
    ∷ ("Modes", int32)
    ∷ ("IEvent", ptr)
    ∷ ("Code", int16)
    ∷ ("BufferPos", int16)
    ∷ ("NumChars", int16)
    ∷ ("Actions", int32)
    ∷ ("LongInt", int32)
    ∷ ("GadgetInfo", ptr)
    ∷ ("EditOp", int16)
    ∷ []

-- `STRUCTURE SGWork`
abbrev pub sg_work_source : List Directive
sg_work_source =
    structure "SGWork" (num 0)
    ∷ field aptr "sgw_Gadget"
    ∷ field aptr "sgw_StringInfo"
    ∷ field aptr "sgw_WorkBuffer"
    ∷ field aptr "sgw_PrevBuffer"
    ∷ field ulong "sgw_Modes"
    ∷ field aptr "sgw_IEvent"
    ∷ field uword "sgw_Code"
    ∷ field word "sgw_BufferPos"
    ∷ field word "sgw_NumChars"
    ∷ field ulong "sgw_Actions"
    ∷ field long "sgw_LongInt"
    ∷ field aptr "sgw_GadgetInfo"
    ∷ field uword "sgw_EditOp"
    ∷ label "sgw_SIZEOF"
    ∷ []

-- The structures of this file, with the symbol of each field and of the size.
abbrev pub sghooks_entries : List Entry
sghooks_entries =
    in_order string_extend_fields string_extend_source (some "sex_SIZEOF")
    ∷ in_order sg_work_fields sg_work_source (some "sgw_SIZEOF")
    ∷ []
