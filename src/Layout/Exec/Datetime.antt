-- ===== src/Layout/Exec/Datetime.antt =====
-- Structures of targets/m68k-amigaos/ndk/include_h/dos/datetime.h and of include_i/dos/datetime.i beside it.
use amiga_dev.Common.{some, List, [], ◌∷◌}
use amiga_dev.Layout.{Fields, int8, ptr, struct_of}
use amiga_dev.Layout.Asm.{Directive, cptr, field, label, num, struct, structure, sym, ubyte}
use amiga_dev.Layout.Agree.{Entry, in_order}
use amiga_dev.Layout.Exec.Dos.{date_stamp_fields}

-- `struct DateTime`
abbrev pub date_time_fields : Fields
date_time_fields =
    ("dat_Stamp", struct_of date_stamp_fields)
    ∷ ("dat_Format", int8)
    ∷ ("dat_Flags", int8)
    ∷ ("dat_StrDay", ptr)
    ∷ ("dat_StrDate", ptr)
    ∷ ("dat_StrTime", ptr)
    ∷ []

-- `STRUCTURE DateTime`
abbrev pub date_time_source : List Directive
date_time_source =
    structure "DateTime" (num 0)
    ∷ struct "dat_Stamp" (sym "ds_SIZEOF")
    ∷ field ubyte "dat_Format"
    ∷ field ubyte "dat_Flags"
    ∷ field cptr "dat_StrDay"
    ∷ field cptr "dat_StrDate"
    ∷ field cptr "dat_StrTime"
    ∷ label "dat_SIZEOF"
    ∷ []

-- The structures of this file, with the symbol of each field and of the size.
abbrev pub datetime_entries : List Entry
datetime_entries = in_order date_time_fields date_time_source (some "dat_SIZEOF") ∷ []
