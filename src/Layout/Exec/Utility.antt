-- ===== src/Layout/Exec/Utility.antt =====
-- Structures of targets/m68k-amigaos/ndk/include_h/utility/utility.h and of include_i/utility/utility.i beside it.
use amiga_dev.Common.{none, List, [], ◌∷◌}
use amiga_dev.Layout.{Fields, int8, struct_of}
use amiga_dev.Layout.Asm.{Directive, field, structure, sym, ubyte}
use amiga_dev.Layout.Agree.{Entry, in_order}
use amiga_dev.Layout.Exec.Libraries.{library_fields}

-- `struct UtilityBase`
abbrev pub utility_base_fields : Fields
utility_base_fields =
    ("ub_LibNode", struct_of library_fields) ∷ ("ub_Language", int8) ∷ ("ub_Reserved", int8) ∷ []

-- `STRUCTURE UtilityBase`
abbrev pub utility_base_source : List Directive
utility_base_source =
    structure "UtilityBase" (sym "LIB_SIZE")
    ∷ field ubyte "ub_Language"
    ∷ field ubyte "ub_Reserved"
    ∷ []

-- The structures of this file, with the symbol of each field and of the size.
abbrev pub utility_entries : List Entry
utility_entries = in_order utility_base_fields utility_base_source none ∷ []
