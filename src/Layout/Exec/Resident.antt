-- ===== src/Layout/Exec/Resident.antt =====
-- Structures of targets/m68k-amigaos/ndk/include_h/exec/resident.h and of include_i/exec/resident.i beside it.
use amiga_dev.Common.{some, List, [], ◌∷◌}
use amiga_dev.Layout.{Fields, int16, int32, int8, ptr}
use amiga_dev.Layout.Asm.{Directive, aptr, byte, field, label, num, structure, ubyte, uword}
use amiga_dev.Layout.Agree.{Entry, in_order}

-- `struct Resident`
abbrev pub resident_fields : Fields
resident_fields =
    ("rt_MatchWord", int16)
    ∷ ("rt_MatchTag", ptr)
    ∷ ("rt_EndSkip", int32)
    ∷ ("rt_Flags", int8)
    ∷ ("rt_Version", int8)
    ∷ ("rt_Type", int8)
    ∷ ("rt_Pri", int8)
    ∷ ("rt_Name", ptr)
    ∷ ("rt_IdString", ptr)
    ∷ ("rt_Init", int32)
    ∷ []

-- `STRUCTURE RT`
abbrev pub resident_source : List Directive
resident_source =
    structure "RT" (num 0)
    ∷ field uword "RT_MATCHWORD"
    ∷ field aptr "RT_MATCHTAG"
    ∷ field aptr "RT_ENDSKIP"
    ∷ field ubyte "RT_FLAGS"
    ∷ field ubyte "RT_VERSION"
    ∷ field ubyte "RT_TYPE"
    ∷ field byte "RT_PRI"
    ∷ field aptr "RT_NAME"
    ∷ field aptr "RT_IDSTRING"
    ∷ field aptr "RT_INIT"
    ∷ label "RT_SIZE"
    ∷ []

-- The structures of this file, with the symbol of each field and of the size.
abbrev pub resident_entries : List Entry
resident_entries = in_order resident_fields resident_source (some "RT_SIZE") ∷ []
