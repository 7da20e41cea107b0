-- ===== src/Layout/Devices/HardblocksFromFilesysheaderblock.antt =====
-- Structures of targets/m68k-amigaos/ndk/include_h/devices/hardblocks.h and of include_i/devices/hardblocks.i beside it: `FileSysHeaderBlock` to `LoadSegBlock`.
use amiga_dev.Common.{some, none, List, [], ◌∷◌}
use amiga_dev.Layout.{Fields, array, int32, int8}
use amiga_dev.Layout.Asm.{Directive, field, label, long, num, struct, structure, times, ulong}
use amiga_dev.Layout.Agree.{Entry, in_order}

-- `struct FileSysHeaderBlock`
abbrev pub file_sys_header_block_fields : Fields
file_sys_header_block_fields =
    ("fhb_ID", int32)
    ∷ ("fhb_SummedLongs", int32)
    ∷ ("fhb_ChkSum", int32)
    ∷ ("fhb_HostID", int32)
    ∷ ("fhb_Next", int32)
    ∷ ("fhb_Flags", int32)
    ∷ ("fhb_Reserved1", array 2 int32)
    ∷ ("fhb_DosType", int32)
    ∷ ("fhb_Version", int32)
    ∷ ("fhb_PatchFlags", int32)
    ∷ ("fhb_Type", int32)
    ∷ ("fhb_Task", int32)
    ∷ ("fhb_Lock", int32)
    ∷ ("fhb_Handler", int32)
    ∷ ("fhb_StackSize", int32)
    ∷ ("fhb_Priority", int32)
    ∷ ("fhb_Startup", int32)
    ∷ ("fhb_SegListBlocks", int32)
    ∷ ("fhb_GlobalVec", int32)
    ∷ ("fhb_Reserved2", array 23 int32)
    ∷ ("fhb_FileSysName", array 84 int8)
    ∷ []

-- `STRUCTURE FileSysHeaderBlock`
abbrev pub file_sys_header_block_source : List Directive
file_sys_header_block_source =
    structure "FileSysHeaderBlock" (num 0)
    ∷ field ulong "fhb_ID"
    ∷ field ulong "fhb_SummedLongs"
    ∷ field long "fhb_ChkSum"
    ∷ field ulong "fhb_HostID"
    ∷ field ulong "fhb_Next"
    ∷ field ulong "fhb_Flags"
    ∷ struct "fhb_Reserved1" (times (num 2) (num 4))
    ∷ field ulong "fhb_DosType"
    ∷ field ulong "fhb_Version"
    ∷ field ulong "fhb_PatchFlags"
    ∷ field ulong "fhb_Type"
    ∷ field ulong "fhb_Task"
    ∷ field ulong "fhb_Lock"
    ∷ field ulong "fhb_Handler"
    ∷ field ulong "fhb_StackSize"
    ∷ field long "fhb_Priority"
    ∷ field long "fhb_Startup"
    ∷ field long "fhb_SegListBlocks"
    ∷ field long "fhb_GlobalVec"
    ∷ struct "fhb_Reserved2" (times (num 23) (num 4))
    ∷ struct "fhb_Reserved3" (times (num 21) (num 4))
    ∷ label "FileSysHeader_SIZEOF"
    ∷ []

-- `struct LoadSegBlock`
abbrev pub load_seg_block_fields : Fields
load_seg_block_fields =
    ("lsb_ID", int32)
    ∷ ("lsb_SummedLongs", int32)
    ∷ ("lsb_ChkSum", int32)
    ∷ ("lsb_HostID", int32)
    ∷ ("lsb_Next", int32)
    ∷ ("lsb_LoadData", array 123 int32)
    ∷ []

-- `STRUCTURE LoadSegBlock`
abbrev pub load_seg_block_source : List Directive
load_seg_block_source =
    structure "LoadSegBlock" (num 0)
    ∷ field ulong "lsb_ID"
    ∷ field ulong "lsb_SummedLongs"
    ∷ field long "lsb_ChkSum"
    ∷ field ulong "lsb_HostID"
    ∷ field ulong "lsb_Next"
    ∷ struct "lsb_LoadData" (times (num 123) (num 4))
    ∷ []

-- The structures of this file, with the symbol of each field and of the size.
abbrev pub hardblocks_from_filesysheaderblock_entries : List Entry
hardblocks_from_filesysheaderblock_entries =
    in_order file_sys_header_block_fields file_sys_header_block_source (some "FileSysHeader_SIZEOF")
    ∷ in_order load_seg_block_fields load_seg_block_source none
    ∷ []
