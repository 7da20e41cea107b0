-- ===== src/Layout/Devices/Disk.antt =====
-- Structures of targets/m68k-amigaos/ndk/include_h/resources/disk.h and of include_i/resources/disk.i beside it.
use amiga_dev.Common.{some, List, [], ◌∷◌}
use amiga_dev.Layout.{Fields, array, int32, int8, ptr, struct_of}
use amiga_dev.Layout.Asm.{Directive, aptr, field, label, num, struct, structure, sym, times, ubyte}
use amiga_dev.Layout.Agree.{Entry, in_order}
use amiga_dev.Layout.Exec.Interrupts.{interrupt_fields}
use amiga_dev.Layout.Exec.Libraries.{library_fields}
use amiga_dev.Layout.Exec.Lists.{list_fields}
use amiga_dev.Layout.Exec.Ports.{message_fields}

-- `struct DiscResourceUnit`
abbrev pub disc_resource_unit_fields : Fields
disc_resource_unit_fields =
    ("dru_Message", struct_of message_fields)
    ∷ ("dru_DiscBlock", struct_of interrupt_fields)
    ∷ ("dru_DiscSync", struct_of interrupt_fields)
    ∷ ("dru_Index", struct_of interrupt_fields)
    ∷ []

-- `STRUCTURE DISCRESOURCEUNIT`
abbrev pub disc_resource_unit_source : List Directive
disc_resource_unit_source =
    structure "DISCRESOURCEUNIT" (sym "MN_SIZE")
    ∷ struct "DRU_DISCBLOCK" (sym "IS_SIZE")
    ∷ struct "DRU_DISCSYNC" (sym "IS_SIZE")
    ∷ struct "DRU_INDEX" (sym "IS_SIZE")
    ∷ label "DRU_SIZE"
    ∷ []

-- `struct DiscResource`
abbrev pub disc_resource_fields : Fields
disc_resource_fields =
    ("dr_Library", struct_of library_fields)
    ∷ ("dr_Current", ptr)
    ∷ ("dr_Flags", int8)
    ∷ ("dr_pad", int8)
    ∷ ("dr_SysLib", ptr)
    ∷ ("dr_CiaResource", ptr)
    ∷ ("dr_UnitID", array 4 int32)
    ∷ ("dr_Waiting", struct_of list_fields)
    ∷ ("dr_DiscBlock", struct_of interrupt_fields)
    ∷ ("dr_DiscSync", struct_of interrupt_fields)
    ∷ ("dr_Index", struct_of interrupt_fields)
    ∷ ("dr_CurrTask", ptr)
    ∷ []

-- `STRUCTURE DISCRESOURCE`
abbrev pub disc_resource_source : List Directive
disc_resource_source =
    structure "DISCRESOURCE" (sym "LIB_SIZE")
    ∷ field aptr "DR_CURRENT"
    ∷ field ubyte "DR_FLAGS"
    ∷ field ubyte "DR_pad"
    ∷ field aptr "DR_SYSLIB"
    ∷ field aptr "DR_CIARESOURCE"
    ∷ struct "DR_UNITID" (times (num 4) (num 4))
    ∷ struct "DR_WAITING" (sym "LH_SIZE")
    ∷ struct "DR_DISCBLOCK" (sym "IS_SIZE")
    ∷ struct "DR_DISCSYNC" (sym "IS_SIZE")
    ∷ struct "DR_INDEX" (sym "IS_SIZE")
    ∷ field aptr "DR_CURRTASK"
    ∷ label "DR_SIZE"
    ∷ []

-- The structures of this file, with the symbol of each field and of the size.
abbrev pub disk_entries : List Entry
disk_entries =
    in_order disc_resource_unit_fields disc_resource_unit_source (some "DRU_SIZE")
    ∷ in_order disc_resource_fields disc_resource_source (some "DR_SIZE")
    ∷ []
