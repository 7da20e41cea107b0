-- ===== src/Layout/Exec/Io.antt =====
-- Structures of targets/m68k-amigaos/ndk/include_h/exec/io.h and of include_i/exec/io.i beside it.
use amiga_dev.Common.{some, List, [], ◌∷◌}
use amiga_dev.Layout.{Fields, int16, int32, int8, ptr, struct_of}
use amiga_dev.Layout.Asm.{Directive, aptr, byte, field, label, structure, sym, ubyte, ulong, uword}
use amiga_dev.Layout.Agree.{Entry, entry}
use amiga_dev.Layout.Exec.Ports.{message_fields}

-- `struct IORequest`
abbrev pub io_request_fields : Fields
io_request_fields =
    ("io_Message", struct_of message_fields)
    ∷ ("io_Device", ptr)
    ∷ ("io_Unit", ptr)
    ∷ ("io_Command", int16)
    ∷ ("io_Flags", int8)
    ∷ ("io_Error", int8)
    ∷ []

-- `STRUCTURE IO`
abbrev pub io_request_source : List Directive
io_request_source =
    structure "IO" (sym "MN_SIZE")
    ∷ field aptr "IO_DEVICE"
    ∷ field aptr "IO_UNIT"
    ∷ field uword "IO_COMMAND"
    ∷ field ubyte "IO_FLAGS"
    ∷ field byte "IO_ERROR"
    ∷ label "IO_SIZE"
    ∷ field ulong "IO_ACTUAL"
    ∷ field ulong "IO_LENGTH"
    ∷ field aptr "IO_DATA"
    ∷ field ulong "IO_OFFSET"
    ∷ label "IOSTD_SIZE"
    ∷ []

-- `struct IOStdReq`
abbrev pub io_std_req_fields : Fields
io_std_req_fields =
    ("io_Message", struct_of message_fields)
    ∷ ("io_Device", ptr)
    ∷ ("io_Unit", ptr)
    ∷ ("io_Command", int16)
    ∷ ("io_Flags", int8)
    ∷ ("io_Error", int8)
    ∷ ("io_Actual", int32)
    ∷ ("io_Length", int32)
    ∷ ("io_Data", int32)
    ∷ ("io_Offset", int32)
    ∷ []

-- The structures of this file, with the symbol of each field and of the size.
abbrev pub io_entries : List Entry
io_entries =
    entry io_request_fields io_request_source
      ("IO" ∷ "IO_DEVICE" ∷ "IO_UNIT" ∷ "IO_COMMAND" ∷ "IO_FLAGS" ∷ "IO_ERROR" ∷ [])
      (some "IO_SIZE")
    ∷ entry io_std_req_fields []
        ("IO" ∷ "IO_DEVICE" ∷ "IO_UNIT" ∷ "IO_COMMAND" ∷ "IO_FLAGS" ∷ "IO_ERROR" ∷ "IO_ACTUAL"
          ∷ "IO_LENGTH" ∷ "IO_DATA" ∷ "IO_OFFSET" ∷ [])
        (some "IOSTD_SIZE")
    ∷ []
