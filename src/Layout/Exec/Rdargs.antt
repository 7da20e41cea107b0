-- ===== src/Layout/Exec/Rdargs.antt =====
-- Structures of targets/m68k-amigaos/ndk/include_h/dos/rdargs.h and of include_i/dos/rdargs.i beside it.
use amiga_dev.Common.{some, List, [], ◌∷◌}
use amiga_dev.Layout.{Fields, int32, ptr, struct_of}
use amiga_dev.Layout.Asm.{Directive, aptr, field, label, long, num, struct, structure, sym}
use amiga_dev.Layout.Agree.{Entry, in_order}

-- `struct CSource`
abbrev pub c_source_fields : Fields
c_source_fields = ("CS_Buffer", ptr) ∷ ("CS_Length", int32) ∷ ("CS_CurChr", int32) ∷ []

-- `STRUCTURE CSource`
abbrev pub c_source_source : List Directive
c_source_source =
    structure "CSource" (num 0)
    ∷ field aptr "CS_Buffer"
    ∷ field long "CS_Length"
    ∷ field long "CS_CurChr"
    ∷ label "CS_SIZEOF"
    ∷ []

-- `struct RDArgs`
abbrev pub rd_args_fields : Fields
rd_args_fields =
    ("RDA_Source", struct_of c_source_fields)
    ∷ ("RDA_DAList", int32)
    ∷ ("RDA_Buffer", ptr)
    ∷ ("RDA_BufSiz", int32)
    ∷ ("RDA_ExtHelp", ptr)
    ∷ ("RDA_Flags", int32)
    ∷ []

-- `STRUCTURE RDArgs`
abbrev pub rd_args_source : List Directive
rd_args_source =
    structure "RDArgs" (num 0)
    ∷ struct "RDA_Source" (sym "CS_SIZEOF")
    ∷ field aptr "RDA_DAList"
    ∷ field long "RDA_Buffer"
    ∷ field long "RDA_BufSiz"
    ∷ field aptr "RDA_ExtHelp"
    ∷ field long "RDA_Flags"
    ∷ label "RDA_SIZEOF"
    ∷ []

-- The structures of this file, with the symbol of each field and of the size.
abbrev pub rdargs_entries : List Entry
rdargs_entries =
    in_order c_source_fields c_source_source (some "CS_SIZEOF")
    ∷ in_order rd_args_fields rd_args_source (some "RDA_SIZEOF")
    ∷ []
