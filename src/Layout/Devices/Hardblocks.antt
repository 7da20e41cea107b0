-- ===== src/Layout/Devices/Hardblocks.antt =====
-- Structures of targets/m68k-amigaos/ndk/include_h/devices/hardblocks.h and of include_i/devices/hardblocks.i beside it: `RigidDiskBlock` to `BadBlockBlock`.
use amiga_dev.Common.{some, none, List, [], ◌∷◌}
use amiga_dev.Layout.{Fields, array, int32, int8, struct_of}
use amiga_dev.Layout.Asm.{Directive, field, label, long, num, struct, structure, sym, times, ulong}
use amiga_dev.Layout.Agree.{Entry, in_order}

-- `struct RigidDiskBlock`
abbrev pub rigid_disk_block_fields : Fields
rigid_disk_block_fields =
    ("rdb_ID", int32)
    ∷ ("rdb_SummedLongs", int32)
    ∷ ("rdb_ChkSum", int32)
    ∷ ("rdb_HostID", int32)
    ∷ ("rdb_BlockBytes", int32)
    ∷ ("rdb_Flags", int32)
    ∷ ("rdb_BadBlockList", int32)
    ∷ ("rdb_PartitionList", int32)
    ∷ ("rdb_FileSysHeaderList", int32)
    ∷ ("rdb_DriveInit", int32)
    ∷ ("rdb_Reserved1", array 6 int32)
    ∷ ("rdb_Cylinders", int32)
    ∷ ("rdb_Sectors", int32)
    ∷ ("rdb_Heads", int32)
    ∷ ("rdb_Interleave", int32)
    ∷ ("rdb_Park", int32)
    ∷ ("rdb_Reserved2", array 3 int32)
    ∷ ("rdb_WritePreComp", int32)
    ∷ ("rdb_ReducedWrite", int32)
    ∷ ("rdb_StepRate", int32)
    ∷ ("rdb_Reserved3", array 5 int32)
    ∷ ("rdb_RDBBlocksLo", int32)
    ∷ ("rdb_RDBBlocksHi", int32)
    ∷ ("rdb_LoCylinder", int32)
    ∷ ("rdb_HiCylinder", int32)
    ∷ ("rdb_CylBlocks", int32)
    ∷ ("rdb_AutoParkSeconds", int32)
    ∷ ("rdb_HighRDSKBlock", int32)
    ∷ ("rdb_Reserved4", int32)
    ∷ ("rdb_DiskVendor", array 8 int8)
    ∷ ("rdb_DiskProduct", array 16 int8)
    ∷ ("rdb_DiskRevision", array 4 int8)
    ∷ ("rdb_ControllerVendor", array 8 int8)
    ∷ ("rdb_ControllerProduct", array 16 int8)
    ∷ ("rdb_ControllerRevision", array 4 int8)
    ∷ ("rdb_DriveInitName", array 40 int8)
    ∷ []

-- `STRUCTURE RigidDiskBlock`
abbrev pub rigid_disk_block_source : List Directive
rigid_disk_block_source =
    structure "RigidDiskBlock" (num 0)
    ∷ field ulong "rdb_ID"
    ∷ field ulong "rdb_SummedLongs"
    ∷ field long "rdb_ChkSum"
    ∷ field ulong "rdb_HostID"
    ∷ field ulong "rdb_BlockBytes"
    ∷ field ulong "rdb_Flags"
    ∷ field ulong "rdb_BadBlockList"
    ∷ field ulong "rdb_PartitionList"
    ∷ field ulong "rdb_FileSysHeaderList"
    ∷ field ulong "rdb_DriveInit"
    ∷ struct "rdb_Reserved1" (times (num 6) (num 4))
    ∷ field ulong "rdb_Cylinders"
    ∷ field ulong "rdb_Sectors"
    ∷ field ulong "rdb_Heads"
    ∷ field ulong "rdb_Interleave"
    ∷ field ulong "rdb_Park"
    ∷ struct "rdb_Reserved2" (times (num 3) (num 4))
    ∷ field ulong "rdb_WritePreComp"
    ∷ field ulong "rdb_ReducedWrite"
    ∷ field ulong "rdb_StepRate"
    ∷ struct "rdb_Reserved3" (times (num 5) (num 4))
    ∷ field ulong "rdb_RDBBlocksLo"
    ∷ field ulong "rdb_RDBBlocksHi"
    ∷ field ulong "rdb_LoCylinder"
    ∷ field ulong "rdb_HiCylinder"
    ∷ field ulong "rdb_CylBlocks"
    ∷ field ulong "rdb_AutoParkSeconds"
    ∷ field ulong "rdb_HighRDSKBlock"
    ∷ struct "rdb_Reserved4" (times (num 1) (num 4))
    ∷ struct "rdb_DiskVendor" (num 8)
    ∷ struct "rdb_DiskProduct" (num 16)
    ∷ struct "rdb_DiskRevision" (num 4)
    ∷ struct "rdb_ControllerVendor" (num 8)
    ∷ struct "rdb_ControllerProduct" (num 16)
    ∷ struct "rdb_ControllerRevision" (num 4)
    ∷ struct "rdb_Reserved5" (times (num 10) (num 4))
    ∷ label "RigidDiskBlock_SIZEOF"
    ∷ []

-- `struct BadBlockEntry`
abbrev pub bad_block_entry_fields : Fields
bad_block_entry_fields = ("bbe_BadBlock", int32) ∷ ("bbe_GoodBlock", int32) ∷ []

-- `STRUCTURE BadBlockEntry`
abbrev pub bad_block_entry_source : List Directive
bad_block_entry_source =
    structure "BadBlockEntry" (num 0)
    ∷ field ulong "bbe_BadBlock"
    ∷ field ulong "bbe_GoodBlock"
    ∷ label "BadBlockEntry_SIZEOF"
    ∷ []

-- `struct BadBlockBlock`
abbrev pub bad_block_block_fields : Fields
bad_block_block_fields =
    ("bbb_ID", int32)
    ∷ ("bbb_SummedLongs", int32)
    ∷ ("bbb_ChkSum", int32)
    ∷ ("bbb_HostID", int32)
    ∷ ("bbb_Next", int32)
    ∷ ("bbb_Reserved", int32)
    ∷ ("bbb_BlockPairs", array 61 (struct_of bad_block_entry_fields))
    ∷ []

-- `STRUCTURE BadBlockBlock`
abbrev pub bad_block_block_source : List Directive
bad_block_block_source =
    structure "BadBlockBlock" (num 0)
    ∷ field ulong "bbb_ID"
    ∷ field ulong "bbb_SummedLongs"
    ∷ field long "bbb_ChkSum"
    ∷ field ulong "bbb_HostID"
    ∷ field ulong "bbb_Next"
    ∷ field ulong "bbb_Reserved"
    ∷ struct "bbb_BlockPairs" (times (num 61) (sym "BadBlockEntry_SIZEOF"))
    ∷ []

-- The structures of this file, with the symbol of each field and of the size.
abbrev pub hardblocks_entries : List Entry
hardblocks_entries =
    in_order rigid_disk_block_fields rigid_disk_block_source (some "RigidDiskBlock_SIZEOF")
    ∷ in_order bad_block_entry_fields bad_block_entry_source (some "BadBlockEntry_SIZEOF")
    ∷ in_order bad_block_block_fields bad_block_block_source none
    ∷ []
