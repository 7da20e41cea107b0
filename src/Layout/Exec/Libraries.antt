-- ===== src/Layout/Exec/Libraries.antt =====
-- Structures of targets/m68k-amigaos/ndk/include_h/exec/libraries.h and of include_i/exec/libraries.i beside it.
use amiga_dev.Common.{some, List, [], ◌∷◌}
use amiga_dev.Layout.{Fields, int16, int32, int8, struct_of}
use amiga_dev.Layout.Asm.{Directive, aptr, field, label, structure, sym, ubyte, ulong, uword}
use amiga_dev.Layout.Agree.{Entry, in_order}
use amiga_dev.Layout.Exec.Nodes.{node_fields}

-- `struct Library`
abbrev pub library_fields : Fields
library_fields =
    ("lib_Node", struct_of node_fields)
    ∷ ("lib_Flags", int8)
    ∷ ("lib_pad", int8)
    ∷ ("lib_NegSize", int16)
    ∷ ("lib_PosSize", int16)
    ∷ ("lib_Version", int16)
    ∷ ("lib_Revision", int16)
    ∷ ("lib_IdString", int32)
    ∷ ("lib_Sum", int32)
    ∷ ("lib_OpenCnt", int16)
    ∷ []

-- `STRUCTURE LIB`
abbrev pub library_source : List Directive
library_source =
    structure "LIB" (sym "LN_SIZE")
    ∷ field ubyte "LIB_FLAGS"
    ∷ field ubyte "LIB_pad"
    ∷ field uword "LIB_NEGSIZE"
    ∷ field uword "LIB_POSSIZE"
    ∷ field uword "LIB_VERSION"
    ∷ field uword "LIB_REVISION"
    ∷ field aptr "LIB_IDSTRING"
    ∷ field ulong "LIB_SUM"
    ∷ field uword "LIB_OPENCNT"
    ∷ label "LIB_SIZE"
    ∷ []

-- The structures of this file, with the symbol of each field and of the size.
abbrev pub libraries_entries : List Entry
libraries_entries = in_order library_fields library_source (some "LIB_SIZE") ∷ []
