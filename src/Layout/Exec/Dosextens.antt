-- ===== src/Layout/Exec/Dosextens.antt =====
-- Structures of targets/m68k-amigaos/ndk/include_h/dos/dosextens.h and of include_i/dos/dosextens.i beside it: `FileHandle` to `DosLibrary`.
use amiga_dev.Common.{some, List, [], ◌∷◌}
use amiga_dev.Layout.{Fields, int32, ptr, struct_of}
use amiga_dev.Layout.Asm.{Directive, aptr, field, label, long, num, struct, structure, sym}
use amiga_dev.Layout.Agree.{Entry, in_order}
use amiga_dev.Layout.Exec.Libraries.{library_fields}
use amiga_dev.Layout.Exec.Ports.{message_fields}

-- `struct FileHandle`
abbrev pub file_handle_fields : Fields
file_handle_fields =
    ("fh_Link", ptr)
    ∷ ("fh_Port", ptr)
    ∷ ("fh_Type", ptr)
    ∷ ("fh_Buf", int32)
    ∷ ("fh_Pos", int32)
    ∷ ("fh_End", int32)
    ∷ ("fh_Funcs", int32)
    ∷ ("fh_Func2", int32)
    ∷ ("fh_Func3", int32)
    ∷ ("fh_Args", int32)
    ∷ ("fh_Arg2", int32)
    ∷ []

-- `STRUCTURE FileHandle`
abbrev pub file_handle_source : List Directive
file_handle_source =
    structure "FileHandle" (num 0)
    ∷ field aptr "fh_Link"
    ∷ field aptr "fh_Interactive"
    ∷ field aptr "fh_Type"
    ∷ field long "fh_Buf"
    ∷ field long "fh_Pos"
    ∷ field long "fh_End"
    ∷ field long "fh_Funcs"
    ∷ field long "fh_Func2"
    ∷ field long "fh_Func3"
    ∷ field long "fh_Args"
    ∷ field long "fh_Arg2"
    ∷ label "fh_SIZEOF"
    ∷ []

-- `struct DosPacket`
abbrev pub dos_packet_fields : Fields
dos_packet_fields =
    ("dp_Link", ptr)
    ∷ ("dp_Port", ptr)
    ∷ ("dp_Type", int32)
    ∷ ("dp_Res1", int32)
    ∷ ("dp_Res2", int32)
    ∷ ("dp_Arg1", int32)
    ∷ ("dp_Arg2", int32)
    ∷ ("dp_Arg3", int32)
    ∷ ("dp_Arg4", int32)
    ∷ ("dp_Arg5", int32)
    ∷ ("dp_Arg6", int32)
    ∷ ("dp_Arg7", int32)
    ∷ []

-- `STRUCTURE DosPacket`
abbrev pub dos_packet_source : List Directive
dos_packet_source =
    structure "DosPacket" (num 0)
    ∷ field aptr "dp_Link"
    ∷ field aptr "dp_Port"
    ∷ field long "dp_Type"
    ∷ field long "dp_Res1"
    ∷ field long "dp_Res2"
    ∷ field long "dp_Arg1"
    ∷ field long "dp_Arg2"
    ∷ field long "dp_Arg3"
    ∷ field long "dp_Arg4"
    ∷ field long "dp_Arg5"
    ∷ field long "dp_Arg6"
    ∷ field long "dp_Arg7"
    ∷ label "dp_SIZEOF"
    ∷ []

-- `struct StandardPacket`
abbrev pub standard_packet_fields : Fields
standard_packet_fields =
    ("sp_Msg", struct_of message_fields) ∷ ("sp_Pkt", struct_of dos_packet_fields) ∷ []

-- `STRUCTURE StandardPacket`
abbrev pub standard_packet_source : List Directive
standard_packet_source =
    structure "StandardPacket" (num 0)
    ∷ struct "sp_Msg" (sym "MN_SIZE")
    ∷ struct "sp_Pkt" (sym "dp_SIZEOF")
    ∷ label "sp_SIZEOF"
    ∷ []

-- `struct ErrorString`
abbrev pub error_string_fields : Fields
error_string_fields = ("estr_Nums", ptr) ∷ ("estr_Strings", ptr) ∷ []

-- `STRUCTURE ErrorString`
abbrev pub error_string_source : List Directive
error_string_source =
    structure "ErrorString" (num 0)
    ∷ field aptr "estr_Nums"
    ∷ field aptr "estr_Strings"
    ∷ label "ErrorString_SIZEOF"
    ∷ []

-- `struct DosLibrary`
abbrev pub dos_library_fields : Fields
dos_library_fields =
    ("dl_lib", struct_of library_fields)
    ∷ ("dl_Root", ptr)
    ∷ ("dl_GV", int32)
    ∷ ("dl_A2", int32)
    ∷ ("dl_A5", int32)
    ∷ ("dl_A6", int32)
    ∷ ("dl_Errors", ptr)
    ∷ ("dl_TimeReq", ptr)
    ∷ ("dl_UtilityBase", ptr)
    ∷ ("dl_IntuitionBase", ptr)
    ∷ []

-- `STRUCTURE DosLibrary`
abbrev pub dos_library_source : List Directive
dos_library_source =
    structure "DosLibrary" (num 0)
    ∷ struct "dl_lib" (sym "LIB_SIZE")
    ∷ field aptr "dl_Root"
    ∷ field aptr "dl_GV"
    ∷ field long "dl_A2"
    ∷ field long "dl_A5"
    ∷ field long "dl_A6"
    ∷ field aptr "dl_Errors"
    ∷ field aptr "dl_TimeReq"
    ∷ field aptr "dl_UtilityBase"
    ∷ field aptr "dl_IntuitionBase"
    ∷ label "dl_SIZEOF"
    ∷ []

-- The structures of this file, with the symbol of each field and of the size.
abbrev pub dosextens_entries : List Entry
dosextens_entries =
    in_order file_handle_fields file_handle_source (some "fh_SIZEOF")
    ∷ in_order dos_packet_fields dos_packet_source (some "dp_SIZEOF")
    ∷ in_order standard_packet_fields standard_packet_source (some "sp_SIZEOF")
    ∷ in_order error_string_fields error_string_source (some "ErrorString_SIZEOF")
    ∷ in_order dos_library_fields dos_library_source (some "dl_SIZEOF")
    ∷ []
