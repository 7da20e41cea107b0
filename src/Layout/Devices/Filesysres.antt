-- ===== src/Layout/Devices/Filesysres.antt =====
-- Structures of targets/m68k-amigaos/ndk/include_h/resources/filesysres.h and of include_i/resources/filesysres.i beside it.
use amiga_dev.Common.{some, none, List, [], ◌∷◌}
use amiga_dev.Layout.{Fields, int32, ptr, struct_of}
use amiga_dev.Layout.Asm.{
  Directive, bptr, bstr, cptr, field, label, long, struct, structure, sym, ulong,
}
use amiga_dev.Layout.Agree.{Entry, in_order}
use amiga_dev.Layout.Exec.Lists.{list_fields}
use amiga_dev.Layout.Exec.Nodes.{node_fields}

-- `struct FileSysResource`
abbrev pub file_sys_resource_fields : Fields
file_sys_resource_fields =
    ("fsr_Node", struct_of node_fields)
    ∷ ("fsr_Creator", ptr)
    ∷ ("fsr_FileSysEntries", struct_of list_fields)
    ∷ []

-- `STRUCTURE FileSysResource`
abbrev pub file_sys_resource_source : List Directive
file_sys_resource_source =
    structure "FileSysResource" (sym "LN_SIZE")
    ∷ field cptr "fsr_Creator"
    ∷ struct "fsr_FileSysEntries" (sym "LH_SIZE")
    ∷ label "FileSysResource_SIZEOF"
    ∷ []

-- `struct FileSysEntry`
abbrev pub file_sys_entry_fields : Fields
file_sys_entry_fields =
    ("fse_Node", struct_of node_fields)
    ∷ ("fse_DosType", int32)
    ∷ ("fse_Version", int32)
    ∷ ("fse_PatchFlags", int32)
    ∷ ("fse_Type", int32)
    ∷ ("fse_Task", int32)
    ∷ ("fse_Lock", int32)
    ∷ ("fse_Handler", int32)
    ∷ ("fse_StackSize", int32)
    ∷ ("fse_Priority", int32)
    ∷ ("fse_Startup", int32)
    ∷ ("fse_SegList", int32)
    ∷ ("fse_GlobalVec", int32)
    ∷ []

-- `STRUCTURE FileSysEntry`
abbrev pub file_sys_entry_source : List Directive
file_sys_entry_source =
    structure "FileSysEntry" (sym "LN_SIZE")
    ∷ field ulong "fse_DosType"
    ∷ field ulong "fse_Version"
    ∷ field ulong "fse_PatchFlags"
    ∷ field ulong "fse_Type"
    ∷ field cptr "fse_Task"
    ∷ field bptr "fse_Lock"
    ∷ field bstr "fse_Handler"
    ∷ field ulong "fse_StackSize"
    ∷ field long "fse_Priority"
    ∷ field bptr "fse_Startup"
    ∷ field bptr "fse_SegList"
    ∷ field bptr "fse_GlobalVec"
    ∷ []

-- The structures of this file, with the symbol of each field and of the size.
abbrev pub filesysres_entries : List Entry
filesysres_entries =
    in_order file_sys_resource_fields file_sys_resource_source (some "FileSysResource_SIZEOF")
    ∷ in_order file_sys_entry_fields file_sys_entry_source none
    ∷ []
