-- ===== src/Layout/Exec/Filehandler.antt =====
-- Structures of targets/m68k-amigaos/ndk/include_h/dos/filehandler.h and of include_i/dos/filehandler.i beside it.
use amiga_dev.Common.{some, List, [], ◌∷◌}
use amiga_dev.Layout.{Fields, int32, ptr}
use amiga_dev.Layout.Asm.{Directive, bptr, bstr, cptr, field, label, long, num, structure, ulong}
use amiga_dev.Layout.Agree.{Entry, in_order}

-- `struct DosEnvec`
abbrev pub dos_envec_fields : Fields
dos_envec_fields =
    ("de_TableSize", int32)
    ∷ ("de_SizeBlock", int32)
    ∷ ("de_SecOrg", int32)
    ∷ ("de_Surfaces", int32)
    ∷ ("de_SectorPerBlock", int32)
    ∷ ("de_BlocksPerTrack", int32)
    ∷ ("de_Reserved", int32)
    ∷ ("de_PreAlloc", int32)
    ∷ ("de_Interleave", int32)
    ∷ ("de_LowCyl", int32)
    ∷ ("de_HighCyl", int32)
    ∷ ("de_NumBuffers", int32)
    ∷ ("de_BufMemType", int32)
    ∷ ("de_MaxTransfer", int32)
    ∷ ("de_Mask", int32)
    ∷ ("de_BootPri", int32)
    ∷ ("de_DosType", int32)
    ∷ ("de_Baud", int32)
    ∷ ("de_Control", int32)
    ∷ ("de_BootBlocks", int32)
    ∷ []

-- `STRUCTURE DosEnvec`
abbrev pub dos_envec_source : List Directive
dos_envec_source =
    structure "DosEnvec" (num 0)
    ∷ field ulong "de_TableSize"
    ∷ field ulong "de_SizeBlock"
    ∷ field ulong "de_SecOrg"
    ∷ field ulong "de_Surfaces"
    ∷ field ulong "de_SectorPerBlock"
    ∷ field ulong "de_BlocksPerTrack"
    ∷ field ulong "de_Reserved"
    ∷ field ulong "de_PreAlloc"
    ∷ field ulong "de_Interleave"
    ∷ field ulong "de_LowCyl"
    ∷ field ulong "de_HighCyl"
    ∷ field ulong "de_NumBuffers"
    ∷ field ulong "de_BufMemType"
    ∷ field ulong "de_MaxTransfer"
    ∷ field ulong "de_Mask"
    ∷ field long "de_BootPri"
    ∷ field ulong "de_DosType"
    ∷ field ulong "de_Baud"
    ∷ field ulong "de_Control"
    ∷ field ulong "de_BootBlocks"
    ∷ label "DosEnvec_SIZEOF"
    ∷ []

-- `struct FileSysStartupMsg`
abbrev pub file_sys_startup_msg_fields : Fields
file_sys_startup_msg_fields =
    ("fssm_Unit", int32)
    ∷ ("fssm_Device", int32)
    ∷ ("fssm_Environ", int32)
    ∷ ("fssm_Flags", int32)
    ∷ []

-- `STRUCTURE FileSysStartupMsg`
abbrev pub file_sys_startup_msg_source : List Directive
file_sys_startup_msg_source =
    structure "FileSysStartupMsg" (num 0)
    ∷ field ulong "fssm_Unit"
    ∷ field bstr "fssm_Device"
    ∷ field bptr "fssm_Environ"
    ∷ field ulong "fssm_Flags"
    ∷ label "FileSysStartupMsg_SIZEOF"
    ∷ []

-- `struct DeviceNode`
abbrev pub device_node_fields : Fields
device_node_fields =
    ("dn_Next", int32)
    ∷ ("dn_Type", int32)
    ∷ ("dn_Task", ptr)
    ∷ ("dn_Lock", int32)
    ∷ ("dn_Handler", int32)
    ∷ ("dn_StackSize", int32)
    ∷ ("dn_Priority", int32)
    ∷ ("dn_Startup", int32)
    ∷ ("dn_SegList", int32)
    ∷ ("dn_GlobalVec", int32)
    ∷ ("dn_Name", int32)
    ∷ []

-- `STRUCTURE DeviceNode`
abbrev pub device_node_source : List Directive
device_node_source =
    structure "DeviceNode" (num 0)
    ∷ field bptr "dn_Next"
    ∷ field ulong "dn_Type"
    ∷ field cptr "dn_Task"
    ∷ field bptr "dn_Lock"
    ∷ field bstr "dn_Handler"
    ∷ field ulong "dn_StackSize"
    ∷ field long "dn_Priority"
    ∷ field bptr "dn_Startup"
    ∷ field bptr "dn_SegList"
    ∷ field bptr "dn_GlobalVec"
    ∷ field bstr "dn_Name"
    ∷ label "DeviceNode_SIZEOF"
    ∷ []

-- The structures of this file, with the symbol of each field and of the size.
abbrev pub filehandler_entries : List Entry
filehandler_entries =
    in_order dos_envec_fields dos_envec_source (some "DosEnvec_SIZEOF")
    ∷ in_order file_sys_startup_msg_fields file_sys_startup_msg_source
        (some "FileSysStartupMsg_SIZEOF")
    ∷ in_order device_node_fields device_node_source (some "DeviceNode_SIZEOF")
    ∷ []
