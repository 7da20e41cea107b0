-- ===== src/Layout/Exec/Devices.antt =====
-- Structures of targets/m68k-amigaos/ndk/include_h/exec/devices.h and of include_i/exec/devices.i beside it.
use amiga_dev.Common.{some, List, [], ◌∷◌}
use amiga_dev.Layout.{Fields, int16, int8, struct_of}
use amiga_dev.Layout.Asm.{Directive, field, label, structure, sym, ubyte, uword}
use amiga_dev.Layout.Agree.{Entry, in_order}
use amiga_dev.Layout.Exec.Libraries.{library_fields}
use amiga_dev.Layout.Exec.Ports.{msg_port_fields}

-- `struct Device`
abbrev pub device_fields : Fields
device_fields = ("dd_Library", struct_of library_fields) ∷ []

-- `STRUCTURE DD`
abbrev pub device_source : List Directive
device_source = structure "DD" (sym "LIB_SIZE") ∷ label "DD_SIZE" ∷ []

-- `struct Unit`
abbrev pub unit_fields : Fields
unit_fields =
    ("unit_MsgPort", struct_of msg_port_fields)
    ∷ ("unit_flags", int8)
    ∷ ("unit_pad", int8)
    ∷ ("unit_OpenCnt", int16)
    ∷ []

-- `STRUCTURE UNIT`
abbrev pub unit_source : List Directive
unit_source =
    structure "UNIT" (sym "MP_SIZE")
    ∷ field ubyte "UNIT_FLAGS"
    ∷ field ubyte "UNIT_pad"
    ∷ field uword "UNIT_OPENCNT"
    ∷ label "UNIT_SIZE"
    ∷ []

-- The structures of this file, with the symbol of each field and of the size.
abbrev pub devices_entries : List Entry
devices_entries =
    in_order device_fields device_source (some "DD_SIZE")
    ∷ in_order unit_fields unit_source (some "UNIT_SIZE")
    ∷ []
