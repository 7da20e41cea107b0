-- ===== src/Layout/Exec/Dos.antt =====
-- Structures of targets/m68k-amigaos/ndk/include_h/dos/dos.h and of include_i/dos/dos.i beside it.
use amiga_dev.Common.{some, List, [], ◌∷◌}
use amiga_dev.Layout.{Fields, array, int16, int32, int8, struct_of}
use amiga_dev.Layout.Asm.{Directive, bptr, field, label, long, num, struct, structure, sym, uword}
use amiga_dev.Layout.Agree.{Entry, in_order}

-- `struct DateStamp`
abbrev pub date_stamp_fields : Fields
date_stamp_fields = ("ds_Days", int32) ∷ ("ds_Minute", int32) ∷ ("ds_Tick", int32) ∷ []

-- `STRUCTURE DateStamp`
abbrev pub date_stamp_source : List Directive
date_stamp_source =
    structure "DateStamp" (num 0)
    ∷ field long "ds_Days"
    ∷ field long "ds_Minute"
    ∷ field long "ds_Tick"
    ∷ label "ds_SIZEOF"
    ∷ []

-- `struct FileInfoBlock`
abbrev pub file_info_block_fields : Fields
file_info_block_fields =
    ("fib_DiskKey", int32)
    ∷ ("fib_DirEntryType", int32)
    ∷ ("fib_FileName", array 108 int8)
    ∷ ("fib_Protection", int32)
    ∷ ("fib_EntryType", int32)
    ∷ ("fib_Size", int32)
    ∷ ("fib_NumBlocks", int32)
    ∷ ("fib_Date", struct_of date_stamp_fields)
    ∷ ("fib_Comment", array 80 int8)
    ∷ ("fib_OwnerUID", int16)
    ∷ ("fib_OwnerGID", int16)
    ∷ ("fib_Reserved", array 32 int8)
    ∷ []

-- `STRUCTURE FileInfoBlock`
abbrev pub file_info_block_source : List Directive
file_info_block_source =
    structure "FileInfoBlock" (num 0)
    ∷ field long "fib_DiskKey"
    ∷ field long "fib_DirEntryType"
    ∷ struct "fib_FileName" (num 108)
    ∷ field long "fib_Protection"
    ∷ field long "fib_EntryType"
    ∷ field long "fib_Size"
    ∷ field long "fib_NumBlocks"
    ∷ struct "fib_DateStamp" (sym "ds_SIZEOF")
    ∷ struct "fib_Comment" (num 80)
    ∷ field uword "fib_OwnerUID"
    ∷ field uword "fib_OwnerGID"
    ∷ struct "fib_Reserved" (num 32)
    ∷ label "fib_SIZEOF"
    ∷ []

-- `struct InfoData`
abbrev pub info_data_fields : Fields
info_data_fields =
    ("id_NumSoftErrors", int32)
    ∷ ("id_UnitNumber", int32)
    ∷ ("id_DiskState", int32)
    ∷ ("id_NumBlocks", int32)
    ∷ ("id_NumBlocksUsed", int32)
    ∷ ("id_BytesPerBlock", int32)
    ∷ ("id_DiskType", int32)
    ∷ ("id_VolumeNode", int32)
    ∷ ("id_InUse", int32)
    ∷ []

-- `STRUCTURE InfoData`
abbrev pub info_data_source : List Directive
info_data_source =
    structure "InfoData" (num 0)
    ∷ field long "id_NumSoftErrors"
    ∷ field long "id_UnitNumber"
    ∷ field long "id_DiskState"
    ∷ field long "id_NumBlocks"
    ∷ field long "id_NumBlocksUsed"
    ∷ field long "id_BytesPerBlock"
    ∷ field long "id_DiskType"
    ∷ field bptr "id_VolumeNode"
    ∷ field long "id_InUse"
    ∷ label "id_SIZEOF"
    ∷ []

-- The structures of this file, with the symbol of each field and of the size.
abbrev pub dos_entries : List Entry
dos_entries =
    in_order date_stamp_fields date_stamp_source (some "ds_SIZEOF")
    ∷ in_order file_info_block_fields file_info_block_source (some "fib_SIZEOF")
    ∷ in_order info_data_fields info_data_source (some "id_SIZEOF")
    ∷ []
