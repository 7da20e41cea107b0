-- ===== src/Layout/Exec/Execbase.antt =====
-- Structures of targets/m68k-amigaos/ndk/include_h/exec/execbase.h and of include_i/exec/execbase.i beside it.
use amiga_dev.Common.{some, List, [], ◌∷◌}
use amiga_dev.Layout.{Fields, array, int16, int32, int8, ptr, struct_of}
use amiga_dev.Layout.Asm.{
  Directive, aptr, byte, field, label, num, struct, structure, sym, times, ubyte, ulong, uword,
  word,
}
use amiga_dev.Layout.Agree.{Entry, entry}
use amiga_dev.Layout.Exec.Interrupts.{int_vector_fields, soft_int_list_fields}
use amiga_dev.Layout.Exec.Libraries.{library_fields}
use amiga_dev.Layout.Exec.Lists.{list_fields, min_list_fields}

-- `struct ExecBase`
abbrev pub exec_base_fields : Fields
exec_base_fields =
    ("LibNode", struct_of library_fields)
    ∷ ("SoftVer", int16)
    ∷ ("LowMemChkSum", int16)
    ∷ ("ChkBase", int32)
    ∷ ("ColdCapture", int32)
    ∷ ("CoolCapture", int32)
    ∷ ("WarmCapture", int32)
    ∷ ("SysStkUpper", int32)
    ∷ ("SysStkLower", int32)
    ∷ ("MaxLocMem", int32)
    ∷ ("DebugEntry", int32)
    ∷ ("DebugData", int32)
    ∷ ("AlertData", int32)
    ∷ ("MaxExtMem", int32)
    ∷ ("ChkSum", int16)
    ∷ ("IntVects", array 16 (struct_of int_vector_fields))
    ∷ ("ThisTask", ptr)
    ∷ ("IdleCount", int32)
    ∷ ("DispCount", int32)
    ∷ ("Quantum", int16)
    ∷ ("Elapsed", int16)
    ∷ ("SysFlags", int16)
    ∷ ("IDNestCnt", int8)
    ∷ ("TDNestCnt", int8)
    ∷ ("AttnFlags", int16)
    ∷ ("AttnResched", int16)
    ∷ ("ResModules", int32)
    ∷ ("TaskTrapCode", int32)
    ∷ ("TaskExceptCode", int32)
    ∷ ("TaskExitCode", int32)
    ∷ ("TaskSigAlloc", int32)
    ∷ ("TaskTrapAlloc", int16)
    ∷ ("MemList", struct_of list_fields)
    ∷ ("ResourceList", struct_of list_fields)
    ∷ ("DeviceList", struct_of list_fields)
    ∷ ("IntrList", struct_of list_fields)
    ∷ ("LibList", struct_of list_fields)
    ∷ ("PortList", struct_of list_fields)
    ∷ ("TaskReady", struct_of list_fields)
    ∷ ("TaskWait", struct_of list_fields)
    ∷ ("SoftInts", array 5 (struct_of soft_int_list_fields))
    ∷ ("LastAlert", array 4 int32)
    ∷ ("VBlankFrequency", int8)
    ∷ ("PowerSupplyFrequency", int8)
    ∷ ("SemaphoreList", struct_of list_fields)
    ∷ ("KickMemPtr", int32)
    ∷ ("KickTagPtr", int32)
    ∷ ("KickCheckSum", int32)
    ∷ ("ex_Pad0", int16)
    ∷ ("ex_LaunchPoint", int32)
    ∷ ("ex_RamLibPrivate", int32)
    ∷ ("ex_EClockFrequency", int32)
    ∷ ("ex_CacheControl", int32)
    ∷ ("ex_TaskID", int32)
    ∷ ("ex_Reserved1", array 5 int32)
    ∷ ("ex_MMULock", int32)
    ∷ ("ex_Reserved2", array 3 int32)
    ∷ ("ex_MemHandlers", struct_of min_list_fields)
    ∷ ("ex_MemHandler", int32)
    ∷ []

-- `STRUCTURE ExecBase`
abbrev pub exec_base_source : List Directive
exec_base_source =
    structure "ExecBase" (sym "LIB_SIZE")
    ∷ field uword "SoftVer"
    ∷ field word "LowMemChkSum"
    ∷ field ulong "ChkBase"
    ∷ field aptr "ColdCapture"
    ∷ field aptr "CoolCapture"
    ∷ field aptr "WarmCapture"
    ∷ field aptr "SysStkUpper"
    ∷ field aptr "SysStkLower"
    ∷ field ulong "MaxLocMem"
    ∷ field aptr "DebugEntry"
    ∷ field aptr "DebugData"
    ∷ field aptr "AlertData"
    ∷ field aptr "MaxExtMem"
    ∷ field word "ChkSum"
    ∷ label "IntVects"
    ∷ struct "IVTBE" (sym "IV_SIZE")
    ∷ struct "IVDSKBLK" (sym "IV_SIZE")
    ∷ struct "IVSOFTINT" (sym "IV_SIZE")
    ∷ struct "IVPORTS" (sym "IV_SIZE")
    ∷ struct "IVCOPER" (sym "IV_SIZE")
    ∷ struct "IVVERTB" (sym "IV_SIZE")
    ∷ struct "IVBLIT" (sym "IV_SIZE")
    ∷ struct "IVAUD0" (sym "IV_SIZE")
    ∷ struct "IVAUD1" (sym "IV_SIZE")
    ∷ struct "IVAUD2" (sym "IV_SIZE")
    ∷ struct "IVAUD3" (sym "IV_SIZE")
    ∷ struct "IVRBF" (sym "IV_SIZE")
    ∷ struct "IVDSKSYNC" (sym "IV_SIZE")
    ∷ struct "IVEXTER" (sym "IV_SIZE")
    ∷ struct "IVINTEN" (sym "IV_SIZE")
    ∷ struct "IVNMI" (sym "IV_SIZE")
    ∷ field aptr "ThisTask"
    ∷ field ulong "IdleCount"
    ∷ field ulong "DispCount"
    ∷ field uword "Quantum"
    ∷ field uword "Elapsed"
    ∷ field uword "SysFlags"
    ∷ field byte "IDNestCnt"
    ∷ field byte "TDNestCnt"
    ∷ field uword "AttnFlags"
    ∷ field uword "AttnResched"
    ∷ field aptr "ResModules"
    ∷ field aptr "TaskTrapCode"
    ∷ field aptr "TaskExceptCode"
    ∷ field aptr "TaskExitCode"
    ∷ field ulong "TaskSigAlloc"
    ∷ field uword "TaskTrapAlloc"
    ∷ struct "MemList" (sym "LH_SIZE")
    ∷ struct "ResourceList" (sym "LH_SIZE")
    ∷ struct "DeviceList" (sym "LH_SIZE")
    ∷ struct "IntrList" (sym "LH_SIZE")
    ∷ struct "LibList" (sym "LH_SIZE")
    ∷ struct "PortList" (sym "LH_SIZE")
    ∷ struct "TaskReady" (sym "LH_SIZE")
    ∷ struct "TaskWait" (sym "LH_SIZE")
    ∷ struct "SoftInts" (times (sym "SH_SIZE") (num 5))
    ∷ struct "LastAlert" (times (num 4) (num 4))
    ∷ field ubyte "VBlankFrequency"
    ∷ field ubyte "PowerSupplyFrequency"
    ∷ struct "SemaphoreList" (sym "LH_SIZE")
    ∷ field aptr "KickMemPtr"
    ∷ field aptr "KickTagPtr"
    ∷ field aptr "KickCheckSum"
    ∷ field uword "ex_Pad0"
    ∷ field ulong "ex_LaunchPoint"
    ∷ field aptr "ex_RamLibPrivate"
    ∷ field ulong "ex_EClockFrequency"
    ∷ field ulong "ex_CacheControl"
    ∷ field ulong "ex_TaskID"
    ∷ struct "ex_Reserved1" (times (num 5) (num 4))
    ∷ field aptr "ex_MMULock"
    ∷ struct "ex_Reserved2" (times (num 3) (num 4))
    ∷ struct "ex_MemHandlers" (sym "MLH_SIZE")
    ∷ field aptr "ex_MemHandler"
    ∷ label "SYSBASESIZE"
    ∷ []

-- The structures of this file, with the symbol of each field and of the size.
abbrev pub execbase_entries : List Entry
execbase_entries =
    entry exec_base_fields exec_base_source
      ("ExecBase" ∷ "SoftVer" ∷ "LowMemChkSum" ∷ "ChkBase" ∷ "ColdCapture" ∷ "CoolCapture"
        ∷ "WarmCapture" ∷ "SysStkUpper" ∷ "SysStkLower" ∷ "MaxLocMem" ∷ "DebugEntry" ∷ "DebugData"
        ∷ "AlertData" ∷ "MaxExtMem" ∷ "ChkSum" ∷ "IntVects" ∷ "ThisTask" ∷ "IdleCount" ∷ "DispCount"
        ∷ "Quantum" ∷ "Elapsed" ∷ "SysFlags" ∷ "IDNestCnt" ∷ "TDNestCnt" ∷ "AttnFlags"
        ∷ "AttnResched" ∷ "ResModules" ∷ "TaskTrapCode" ∷ "TaskExceptCode" ∷ "TaskExitCode"
        ∷ "TaskSigAlloc" ∷ "TaskTrapAlloc" ∷ "MemList" ∷ "ResourceList" ∷ "DeviceList" ∷ "IntrList"
        ∷ "LibList" ∷ "PortList" ∷ "TaskReady" ∷ "TaskWait" ∷ "SoftInts" ∷ "LastAlert"
        ∷ "VBlankFrequency" ∷ "PowerSupplyFrequency" ∷ "SemaphoreList" ∷ "KickMemPtr" ∷ "KickTagPtr"
        ∷ "KickCheckSum" ∷ "ex_Pad0" ∷ "ex_LaunchPoint" ∷ "ex_RamLibPrivate" ∷ "ex_EClockFrequency"
        ∷ "ex_CacheControl" ∷ "ex_TaskID" ∷ "ex_Reserved1" ∷ "ex_MMULock" ∷ "ex_Reserved2"
        ∷ "ex_MemHandlers" ∷ "ex_MemHandler" ∷ [])
      (some "SYSBASESIZE")
    ∷ []
