-- ===== src/Layout/Devices/Scsidisk.antt =====
-- Structures of targets/m68k-amigaos/ndk/include_h/devices/scsidisk.h and of include_i/devices/scsidisk.i beside it.
use amiga_dev.Common.{some, List, [], ◌∷◌}
use amiga_dev.Layout.{Fields, int16, int32, int8, ptr}
use amiga_dev.Layout.Asm.{Directive, aptr, field, label, num, structure, ubyte, ulong, uword}
use amiga_dev.Layout.Agree.{Entry, in_order}

-- `struct SCSICmd`
abbrev pub scsi_cmd_fields : Fields
scsi_cmd_fields =
    ("scsi_Data", ptr)
    ∷ ("scsi_Length", int32)
    ∷ ("scsi_Actual", int32)
    ∷ ("scsi_Command", ptr)
    ∷ ("scsi_CmdLength", int16)
    ∷ ("scsi_CmdActual", int16)
    ∷ ("scsi_Flags", int8)
    ∷ ("scsi_Status", int8)
    ∷ ("scsi_SenseData", ptr)
    ∷ ("scsi_SenseLength", int16)
    ∷ ("scsi_SenseActual", int16)
    ∷ []

-- `STRUCTURE SCSICmd`
abbrev pub scsi_cmd_source : List Directive
scsi_cmd_source =
    structure "SCSICmd" (num 0)
    ∷ field aptr "scsi_Data"
    ∷ field ulong "scsi_Length"
    ∷ field ulong "scsi_Actual"
    ∷ field aptr "scsi_Command"
    ∷ field uword "scsi_CmdLength"
    ∷ field uword "scsi_CmdActual"
    ∷ field ubyte "scsi_Flags"
    ∷ field ubyte "scsi_Status"
    ∷ field aptr "scsi_SenseData"
    ∷ field uword "scsi_SenseLength"
    ∷ field uword "scsi_SenseActual"
    ∷ label "scsi_SIZEOF"
    ∷ []

-- The structures of this file, with the symbol of each field and of the size.
abbrev pub scsidisk_entries : List Entry
scsidisk_entries = in_order scsi_cmd_fields scsi_cmd_source (some "scsi_SIZEOF") ∷ []
