-- ===== src/Layout/Exec.antt =====
-- 57 structures of the exec, utility and dos headers of targets/m68k-amigaos/ndk/include_h, and
-- the same ones of targets/m68k-amigaos/ndk/include_i. Left out of the table are structures
-- that both languages have: Task (tc_TrapAlloc and tc_TrapAble, where the assembler has
-- tc_ETask), Process, which holds a Task, and AnchorPath and AChain (their size symbols leave
-- out the last byte and its padding), because the two differ; and MemChunk, MemEntry, MemList
-- and DosList, because the two divide them into fields in different ways, or their assembler
-- source has conditions or expressions that Layout/Asm does not have or symbols of a header
-- outside the table.
pub mod Nodes
pub mod Lists
pub mod Interrupts
pub mod Libraries
pub mod Execbase
pub mod Ports
pub mod Devices
pub mod Resident
pub mod Memory
pub mod Tasks
pub mod Semaphores
pub mod Io
pub mod Date
pub mod Hooks
pub mod Name
pub mod Tagitem
pub mod Utility
pub mod Dos
pub mod Datetime
pub mod Dosextens
pub mod DosextensFromRootnode
pub mod DosextensFromDevicelist
pub mod Exall
pub mod Filehandler
pub mod Notify
pub mod Rdargs
pub mod Record
pub mod Var
use amiga_dev.Common.{List, ◌∷◌, ◌++◌}
use amiga_dev.Layout.Asm.{Symbols}
use amiga_dev.Layout.Agree.{Entry}
use amiga_dev.Layout.Exec.Nodes.{nodes_entries}
use amiga_dev.Layout.Exec.Lists.{lists_entries}
use amiga_dev.Layout.Exec.Interrupts.{interrupts_entries}
use amiga_dev.Layout.Exec.Libraries.{libraries_entries}
use amiga_dev.Layout.Exec.Execbase.{execbase_entries}
use amiga_dev.Layout.Exec.Ports.{ports_entries}
use amiga_dev.Layout.Exec.Devices.{devices_entries}
use amiga_dev.Layout.Exec.Resident.{resident_entries}
use amiga_dev.Layout.Exec.Memory.{memory_entries}
use amiga_dev.Layout.Exec.Tasks.{tasks_entries}
use amiga_dev.Layout.Exec.Semaphores.{semaphores_entries}
use amiga_dev.Layout.Exec.Io.{io_entries}
use amiga_dev.Layout.Exec.Date.{date_entries}
use amiga_dev.Layout.Exec.Hooks.{hooks_entries}
use amiga_dev.Layout.Exec.Name.{name_entries}
use amiga_dev.Layout.Exec.Tagitem.{tagitem_entries}
use amiga_dev.Layout.Exec.Utility.{utility_entries}
use amiga_dev.Layout.Exec.Dos.{dos_entries}
use amiga_dev.Layout.Exec.Datetime.{datetime_entries}
use amiga_dev.Layout.Exec.Dosextens.{dosextens_entries}
use amiga_dev.Layout.Exec.DosextensFromRootnode.{dosextens_from_rootnode_entries}
use amiga_dev.Layout.Exec.DosextensFromDevicelist.{dosextens_from_devicelist_entries}
use amiga_dev.Layout.Exec.Exall.{exall_entries}
use amiga_dev.Layout.Exec.Filehandler.{filehandler_entries}
use amiga_dev.Layout.Exec.Notify.{notify_entries}
use amiga_dev.Layout.Exec.Rdargs.{rdargs_entries}
use amiga_dev.Layout.Exec.Record.{record_entries}
use amiga_dev.Layout.Exec.Var.{var_entries}

-- In the order of the assembler's includes.
abbrev pub exec_structs : List Entry
exec_structs =
    nodes_entries ++ lists_entries ++ interrupts_entries ++ libraries_entries ++ execbase_entries
    ++ ports_entries ++ devices_entries ++ resident_entries ++ memory_entries ++ tasks_entries
    ++ semaphores_entries ++ io_entries ++ date_entries ++ hooks_entries ++ name_entries
    ++ tagitem_entries ++ utility_entries ++ dos_entries ++ datetime_entries ++ dosextens_entries
    ++ dosextens_from_rootnode_entries ++ dosextens_from_devicelist_entries ++ exall_entries
    ++ filehandler_entries ++ notify_entries ++ rdargs_entries ++ record_entries ++ var_entries
