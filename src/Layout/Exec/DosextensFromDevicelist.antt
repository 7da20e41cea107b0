-- ===== src/Layout/Exec/DosextensFromDevicelist.antt =====
-- Structures of targets/m68k-amigaos/ndk/include_h/dos/dosextens.h and of include_i/dos/dosextens.i beside it: `DeviceList` to `FileLock`.
use amiga_dev.Common.{some, List, [], ◌∷◌}
use amiga_dev.Layout.{Fields, int32, ptr, struct_of}
use amiga_dev.Layout.Asm.{
  Directive, aptr, bptr, bstr, field, label, long, num, struct, structure, sym, ulong,
}
use amiga_dev.Layout.Agree.{Entry, in_order}
use amiga_dev.Layout.Exec.Dos.{date_stamp_fields}

-- `struct DeviceList`
abbrev pub device_list_fields : Fields
device_list_fields =
    ("dl_Next", int32)
    ∷ ("dl_Type", int32)
    ∷ ("dl_Task", ptr)
    ∷ ("dl_Lock", int32)
    ∷ ("dl_VolumeDate", struct_of date_stamp_fields)
    ∷ ("dl_LockList", int32)
    ∷ ("dl_DiskType", int32)
    ∷ ("dl_unused", int32)
    ∷ ("dl_Name", int32)
    ∷ []

-- `STRUCTURE DevList`
abbrev pub device_list_source : List Directive
device_list_source =
    structure "DevList" (num 0)
    ∷ field bptr "dl_Next"
    ∷ field long "dl_Type"
    ∷ field aptr "dl_Task"
    ∷ field bptr "dl_Lock"
    ∷ struct "dl_VolumeDate" (sym "ds_SIZEOF")
    ∷ field bptr "dl_LockList"
    ∷ field long "dl_DiskType"
    ∷ field long "dl_unused"
    ∷ field bstr "dl_Name"
    ∷ label "DevList_SIZEOF"
    ∷ []

-- `struct DevInfo`
abbrev pub dev_info_fields : Fields
dev_info_fields =
    ("dvi_Next", int32)
    ∷ ("dvi_Type", int32)
    ∷ ("dvi_Task", int32)
    ∷ ("dvi_Lock", int32)
    ∷ ("dvi_Handler", int32)
    ∷ ("dvi_StackSize", int32)
    ∷ ("dvi_Priority", int32)
    ∷ ("dvi_Startup", int32)
    ∷ ("dvi_SegList", int32)
    ∷ ("dvi_GlobVec", int32)
    ∷ ("dvi_Name", int32)
    ∷ []

-- `STRUCTURE DevInfo`
abbrev pub dev_info_source : List Directive
dev_info_source =
    structure "DevInfo" (num 0)
    ∷ field bptr "dvi_Next"
    ∷ field long "dvi_Type"
    ∷ field aptr "dvi_Task"
    ∷ field bptr "dvi_Lock"
    ∷ field bstr "dvi_Handler"
    ∷ field long "dvi_Stacksize"
    ∷ field long "dvi_Priority"
    ∷ field long "dvi_Startup"
    ∷ field bptr "dvi_SegList"
    ∷ field bptr "dvi_GlobVec"
    ∷ field bstr "dvi_Name"
    ∷ label "dvi_SIZEOF"
    ∷ []

-- `struct DevProc`
abbrev pub dev_proc_fields : Fields
dev_proc_fields =
    ("dvp_Port", ptr) ∷ ("dvp_Lock", int32) ∷ ("dvp_Flags", int32) ∷ ("dvp_DevNode", ptr) ∷ []

-- `STRUCTURE DevProc`
abbrev pub dev_proc_source : List Directive
dev_proc_source =
    structure "DevProc" (num 0)
    ∷ field aptr "dvp_Port"
    ∷ field bptr "dvp_Lock"
    ∷ field ulong "dvp_Flags"
    ∷ field aptr "dvp_DevNode"
    ∷ label "dvp_SIZEOF"
    ∷ []

-- `struct FileLock`
abbrev pub file_lock_fields : Fields
file_lock_fields =
    ("fl_Link", int32)
    ∷ ("fl_Key", int32)
    ∷ ("fl_Access", int32)
    ∷ ("fl_Task", ptr)
    ∷ ("fl_Volume", int32)
    ∷ []

-- `STRUCTURE FileLock`
abbrev pub file_lock_source : List Directive
file_lock_source =
    structure "FileLock" (num 0)
    ∷ field bptr "fl_Link"
    ∷ field long "fl_Key"
    ∷ field long "fl_Access"
    ∷ field aptr "fl_Task"
    ∷ field bptr "fl_Volume"
    ∷ label "fl_SIZEOF"
    ∷ []

-- The structures of this file, with the symbol of each field and of the size.
abbrev pub dosextens_from_devicelist_entries : List Entry
dosextens_from_devicelist_entries =
    in_order device_list_fields device_list_source (some "DevList_SIZEOF")
    ∷ in_order dev_info_fields dev_info_source (some "dvi_SIZEOF")
    ∷ in_order dev_proc_fields dev_proc_source (some "dvp_SIZEOF")
    ∷ in_order file_lock_fields file_lock_source (some "fl_SIZEOF")
    ∷ []
