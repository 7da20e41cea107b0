-- ===== src/Layout/Devices/Serial.antt =====
-- Structures of targets/m68k-amigaos/ndk/include_h/devices/serial.h and of include_i/devices/serial.i beside it.
use amiga_dev.Common.{some, List, [], ◌∷◌}
use amiga_dev.Layout.{Fields, int16, int32, int8, struct_of}
use amiga_dev.Layout.Asm.{Directive, field, label, num, struct, structure, sym, ubyte, ulong, uword}
use amiga_dev.Layout.Agree.{Entry, in_order}
use amiga_dev.Layout.Exec.Io.{io_std_req_fields}

-- `struct IOTArray`
abbrev pub iot_array_fields : Fields
iot_array_fields = ("TermArray0", int32) ∷ ("TermArray1", int32) ∷ []

-- `STRUCTURE TERMARRAY`
abbrev pub iot_array_source : List Directive
iot_array_source =
    structure "TERMARRAY" (num 0)
    ∷ field ulong "TERMARRAY_0"
    ∷ field ulong "TERMARRAY_1"
    ∷ label "TERMARRAY_SIZE"
    ∷ []

-- `struct IOExtSer`
abbrev pub io_ext_ser_fields : Fields
io_ext_ser_fields =
    ("IOSer", struct_of io_std_req_fields)
    ∷ ("io_CtlChar", int32)
    ∷ ("io_RBufLen", int32)
    ∷ ("io_ExtFlags", int32)
    ∷ ("io_Baud", int32)
    ∷ ("io_BrkTime", int32)
    ∷ ("io_TermArray", struct_of iot_array_fields)
    ∷ ("io_ReadLen", int8)
    ∷ ("io_WriteLen", int8)
    ∷ ("io_StopBits", int8)
    ∷ ("io_SerFlags", int8)
    ∷ ("io_Status", int16)
    ∷ []

-- `STRUCTURE IOEXTSER`
abbrev pub io_ext_ser_source : List Directive
io_ext_ser_source =
    structure "IOEXTSER" (sym "IOSTD_SIZE")
    ∷ field ulong "IO_CTLCHAR"
    ∷ field ulong "IO_RBUFLEN"
    ∷ field ulong "IO_EXTFLAGS"
    ∷ field ulong "IO_BAUD"
    ∷ field ulong "IO_BRKTIME"
    ∷ struct "IO_TERMARRAY" (sym "TERMARRAY_SIZE")
    ∷ field ubyte "IO_READLEN"
    ∷ field ubyte "IO_WRITELEN"
    ∷ field ubyte "IO_STOPBITS"
    ∷ field ubyte "IO_SERFLAGS"
    ∷ field uword "IO_STATUS"
    ∷ label "IOEXTSER_SIZE"
    ∷ []

-- The structures of this file, with the symbol of each field and of the size.
abbrev pub serial_entries : List Entry
serial_entries =
    in_order iot_array_fields iot_array_source (some "TERMARRAY_SIZE")
    ∷ in_order io_ext_ser_fields io_ext_ser_source (some "IOEXTSER_SIZE")
    ∷ []
