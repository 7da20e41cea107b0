-- ===== src/Layout/Exec/DosextensFromRootnode.antt =====
-- Structures of targets/m68k-amigaos/ndk/include_h/dos/dosextens.h and of include_i/dos/dosextens.i beside it: `RootNode` to `CommandLineInterface`.
use amiga_dev.Common.{some, List, [], ◌∷◌}
use amiga_dev.Layout.{Fields, array, int32, int8, ptr, struct_of}
use amiga_dev.Layout.Asm.{
  Directive, aptr, bptr, bstr, field, label, long, num, struct, structure, sym,
}
use amiga_dev.Layout.Agree.{Entry, in_order}
use amiga_dev.Layout.Exec.Dos.{date_stamp_fields}
use amiga_dev.Layout.Exec.Lists.{min_list_fields}
use amiga_dev.Layout.Exec.Nodes.{min_node_fields}
use amiga_dev.Layout.Exec.Semaphores.{signal_semaphore_fields}

-- `struct RootNode`
abbrev pub root_node_fields : Fields
root_node_fields =
    ("rn_TaskArray", int32)
    ∷ ("rn_ConsoleSegment", int32)
    ∷ ("rn_Time", struct_of date_stamp_fields)
    ∷ ("rn_RestartSeg", int32)
    ∷ ("rn_Info", int32)
    ∷ ("rn_FileHandlerSegment", int32)
    ∷ ("rn_CliList", struct_of min_list_fields)
    ∷ ("rn_BootProc", ptr)
    ∷ ("rn_ShellSegment", int32)
    ∷ ("rn_Flags", int32)
    ∷ []

-- `STRUCTURE RootNode`
abbrev pub root_node_source : List Directive
root_node_source =
    structure "RootNode" (num 0)
    ∷ field bptr "rn_TaskArray"
    ∷ field bptr "rn_ConsoleSegment"
    ∷ struct "rn_Time" (sym "ds_SIZEOF")
    ∷ field long "rn_RestartSeg"
    ∷ field bptr "rn_Info"
    ∷ field bptr "rn_FileHandlerSegment"
    ∷ struct "rn_CliList" (sym "MLH_SIZE")
    ∷ field aptr "rn_BootProc"
    ∷ field bptr "rn_ShellSegment"
    ∷ field long "rn_Flags"
    ∷ label "rn_SIZEOF"
    ∷ []

-- `struct CliProcList`
abbrev pub cli_proc_list_fields : Fields
cli_proc_list_fields =
    ("cpl_Node", struct_of min_node_fields) ∷ ("cpl_First", int32) ∷ ("cpl_Array", ptr) ∷ []

-- `STRUCTURE CliProcList`
abbrev pub cli_proc_list_source : List Directive
cli_proc_list_source =
    structure "CliProcList" (num 0)
    ∷ struct "cpl_Node" (sym "MLN_SIZE")
    ∷ field long "cpl_First"
    ∷ field aptr "cpl_Array"
    ∷ label "cpl_SIZEOF"
    ∷ []

-- `struct DosInfo`
abbrev pub dos_info_fields : Fields
dos_info_fields =
    ("di_McName", int32)
    ∷ ("di_DevInfo", int32)
    ∷ ("di_Devices", int32)
    ∷ ("di_Handlers", int32)
    ∷ ("di_NetHand", int32)
    ∷ ("di_DevLock", struct_of signal_semaphore_fields)
    ∷ ("di_EntryLock", struct_of signal_semaphore_fields)
    ∷ ("di_DeleteLock", struct_of signal_semaphore_fields)
    ∷ []

-- `STRUCTURE DosInfo`
abbrev pub dos_info_source : List Directive
dos_info_source =
    structure "DosInfo" (num 0)
    ∷ field bptr "di_McName"
    ∷ field bptr "di_DevInfo"
    ∷ field bptr "di_Devices"
    ∷ field bptr "di_Handlers"
    ∷ field aptr "di_NetHand"
    ∷ struct "di_DevLock" (sym "SS_SIZE")
    ∷ struct "di_EntryLock" (sym "SS_SIZE")
    ∷ struct "di_DeleteLock" (sym "SS_SIZE")
    ∷ label "di_SIZEOF"
    ∷ []

-- `struct Segment`
abbrev pub segment_fields : Fields
segment_fields =
    ("seg_Next", int32) ∷ ("seg_UC", int32) ∷ ("seg_Seg", int32) ∷ ("seg_Name", array 4 int8) ∷ []

-- `STRUCTURE Segment`
abbrev pub segment_source : List Directive
segment_source =
    structure "Segment" (num 0)
    ∷ field bptr "seg_Next"
    ∷ field long "seg_UC"
    ∷ field bptr "seg_Seg"
    ∷ struct "seg_Name" (num 4)
    ∷ label "seg_SIZEOF"
    ∷ []

-- `struct CommandLineInterface`
abbrev pub command_line_interface_fields : Fields
command_line_interface_fields =
    ("cli_Result2", int32)
    ∷ ("cli_SetName", int32)
    ∷ ("cli_CommandDir", int32)
    ∷ ("cli_ReturnCode", int32)
    ∷ ("cli_CommandName", int32)
    ∷ ("cli_FailLevel", int32)
    ∷ ("cli_Prompt", int32)
    ∷ ("cli_StandardInput", int32)
    ∷ ("cli_CurrentInput", int32)
    ∷ ("cli_CommandFile", int32)
    ∷ ("cli_Interactive", int32)
    ∷ ("cli_Background", int32)
    ∷ ("cli_CurrentOutput", int32)
    ∷ ("cli_DefaultStack", int32)
    ∷ ("cli_StandardOutput", int32)
    ∷ ("cli_Module", int32)
    ∷ []

-- `STRUCTURE CommandLineInterface`
abbrev pub command_line_interface_source : List Directive
command_line_interface_source =
    structure "CommandLineInterface" (num 0)
    ∷ field long "cli_Result2"
    ∷ field bstr "cli_SetName"
    ∷ field bptr "cli_CommandDir"
    ∷ field long "cli_ReturnCode"
    ∷ field bstr "cli_CommandName"
    ∷ field long "cli_FailLevel"
    ∷ field bstr "cli_Prompt"
    ∷ field bptr "cli_StandardInput"
    ∷ field bptr "cli_CurrentInput"
    ∷ field bstr "cli_CommandFile"
    ∷ field long "cli_Interactive"
    ∷ field long "cli_Background"
    ∷ field bptr "cli_CurrentOutput"
    ∷ field long "cli_DefaultStack"
    ∷ field bptr "cli_StandardOutput"
    ∷ field bptr "cli_Module"
    ∷ label "cli_SIZEOF"
    ∷ []

-- The structures of this file, with the symbol of each field and of the size.
abbrev pub dosextens_from_rootnode_entries : List Entry
dosextens_from_rootnode_entries =
    in_order root_node_fields root_node_source (some "rn_SIZEOF")
    ∷ in_order cli_proc_list_fields cli_proc_list_source (some "cpl_SIZEOF")
    ∷ in_order dos_info_fields dos_info_source (some "di_SIZEOF")
    ∷ in_order segment_fields segment_source (some "seg_SIZEOF")
    ∷ in_order command_line_interface_fields command_line_interface_source (some "cli_SIZEOF")
    ∷ []
