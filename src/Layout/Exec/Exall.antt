-- ===== src/Layout/Exec/Exall.antt =====
-- Structures of targets/m68k-amigaos/ndk/include_h/dos/exall.h and of include_i/dos/exall.i beside it.
use amiga_dev.Common.{some, List, [], ◌∷◌}
use amiga_dev.Layout.{Fields, int16, int32, ptr}
use amiga_dev.Layout.Asm.{Directive, aptr, field, label, long, num, structure, ulong, uword}
use amiga_dev.Layout.Agree.{Entry, in_order}

-- `struct ExAllData`
abbrev pub ex_all_data_fields : Fields
ex_all_data_fields =
    ("ed_Next", ptr)
    ∷ ("ed_Name", ptr)
    ∷ ("ed_Type", int32)
    ∷ ("ed_Size", int32)
    ∷ ("ed_Prot", int32)
    ∷ ("ed_Days", int32)
    ∷ ("ed_Mins", int32)
    ∷ ("ed_Ticks", int32)
    ∷ ("ed_Comment", ptr)
    ∷ ("ed_OwnerUID", int16)
    ∷ ("ed_OwnerGID", int16)
    ∷ []

-- `STRUCTURE ExAllData`
abbrev pub ex_all_data_source : List Directive
ex_all_data_source =
    structure "ExAllData" (num 0)
    ∷ field aptr "ed_Next"
    ∷ field aptr "ed_Name"
    ∷ field long "ed_Type"
    ∷ field ulong "ed_Size"
    ∷ field ulong "ed_Prot"
    ∷ field ulong "ed_Days"
    ∷ field ulong "ed_Mins"
    ∷ field ulong "ed_Ticks"
    ∷ field aptr "ed_Comment"
    ∷ field uword "ed_OwnerUID"
    ∷ field uword "ed_OwnerGID"
    ∷ label "ed_Strings"
    ∷ label "ExAllData_SIZEOF"
    ∷ []

-- `struct ExAllControl`
abbrev pub ex_all_control_fields : Fields
ex_all_control_fields =
    ("eac_Entries", int32)
    ∷ ("eac_LastKey", int32)
    ∷ ("eac_MatchString", ptr)
    ∷ ("eac_MatchFunc", ptr)
    ∷ []

-- `STRUCTURE ExAllControl`
abbrev pub ex_all_control_source : List Directive
ex_all_control_source =
    structure "ExAllControl" (num 0)
    ∷ field ulong "eac_Entries"
    ∷ field ulong "eac_LastKey"
    ∷ field aptr "eac_MatchString"
    ∷ field aptr "eac_MatchFunc"
    ∷ label "ExAllControl_SIZEOF"
    ∷ []

-- The structures of this file, with the symbol of each field and of the size.
abbrev pub exall_entries : List Entry
exall_entries =
    in_order ex_all_data_fields ex_all_data_source (some "ExAllData_SIZEOF")
    ∷ in_order ex_all_control_fields ex_all_control_source (some "ExAllControl_SIZEOF")
    ∷ []
