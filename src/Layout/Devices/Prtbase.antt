-- ===== src/Layout/Devices/Prtbase.antt =====
-- Structures of targets/m68k-amigaos/ndk/include_h/devices/prtbase.h and of include_i/devices/prtbase.i beside it.
use amiga_dev.Common.{some, none, List, [], ◌∷◌}
use amiga_dev.Layout.{Fields, int16, int32, int8, ptr, struct_of}
use amiga_dev.Layout.Asm.{
  Directive, aptr, field, label, long, num, structure, sym, ubyte, ulong, uword,
}
use amiga_dev.Layout.Agree.{Entry, entry, in_order}
use amiga_dev.Layout.Exec.Libraries.{library_fields}

-- `struct DeviceData`
abbrev pub device_data_fields : Fields
device_data_fields =
    ("dd_Device", struct_of library_fields)
    ∷ ("dd_Segment", int32)
    ∷ ("dd_ExecBase", int32)
    ∷ ("dd_CmdVectors", int32)
    ∷ ("dd_CmdBytes", int32)
    ∷ ("dd_NumCommands", int16)
    ∷ []

-- `STRUCTURE DeviceData`
abbrev pub device_data_source : List Directive
device_data_source =
    structure "DeviceData" (sym "LIB_SIZE")
    ∷ field aptr "dd_Segment"
    ∷ field aptr "dd_ExecBase"
    ∷ field aptr "dd_CmdVectors"
    ∷ field aptr "dd_CmdBytes"
    ∷ field uword "dd_NumCommands"
    ∷ label "dd_SIZEOF"
    ∷ []

-- `struct PrinterExtendedData`
abbrev pub printer_extended_data_fields : Fields
printer_extended_data_fields =
    ("ped_PrinterName", ptr)
    ∷ ("ped_Init", ptr)
    ∷ ("ped_Expunge", ptr)
    ∷ ("ped_Open", ptr)
    ∷ ("ped_Close", ptr)
    ∷ ("ped_PrinterClass", int8)
    ∷ ("ped_ColorClass", int8)
    ∷ ("ped_MaxColumns", int8)
    ∷ ("ped_NumCharSets", int8)
    ∷ ("ped_NumRows", int16)
    ∷ ("ped_MaxXDots", int32)
    ∷ ("ped_MaxYDots", int32)
    ∷ ("ped_XDotsInch", int16)
    ∷ ("ped_YDotsInch", int16)
    ∷ ("ped_Commands", ptr)
    ∷ ("ped_DoSpecial", ptr)
    ∷ ("ped_Render", ptr)
    ∷ ("ped_TimeoutSecs", int32)
    ∷ ("ped_8BitChars", ptr)
    ∷ ("ped_PrintMode", int32)
    ∷ ("ped_ConvFunc", ptr)
    ∷ ("ped_TagList", ptr)
    ∷ ("ped_DoPreferences", ptr)
    ∷ ("ped_CallErrHook", ptr)
    ∷ []

-- `STRUCTURE PrinterExtendedData`
abbrev pub printer_extended_data_source : List Directive
printer_extended_data_source =
    structure "PrinterExtendedData" (num 0)
    ∷ field aptr "ped_PrinterName"
    ∷ field aptr "ped_Init"
    ∷ field aptr "ped_Expunge"
    ∷ field aptr "ped_Open"
    ∷ field aptr "ped_Close"
    ∷ field ubyte "ped_PrinterClass"
    ∷ field ubyte "ped_ColorClass"
    ∷ field ubyte "ped_MaxColumns"
    ∷ field ubyte "ped_NumCharSets"
    ∷ field uword "ped_NumRows"
    ∷ field ulong "ped_MaxXDots"
    ∷ field ulong "ped_MaxYDots"
    ∷ field uword "ped_XDotsInch"
    ∷ field uword "ped_YDotsInch"
    ∷ field aptr "ped_Commands"
    ∷ field aptr "ped_DoSpecial"
    ∷ field aptr "ped_Render"
    ∷ field long "ped_TimeoutSecs"
    ∷ field aptr "ped_8BitChars"
    ∷ field long "ped_PrintMode"
    ∷ field aptr "ped_ConvFunv"
    ∷ field aptr "ped_TagList"
    ∷ field aptr "ped_DoPreferences"
    ∷ field aptr "ped_CallErrHook"
    ∷ label "ped_SIZEOF"
    ∷ []

-- `struct PrinterSegment`
abbrev pub printer_segment_fields : Fields
printer_segment_fields =
    ("ps_NextSegment", int32)
    ∷ ("ps_runAlert", int32)
    ∷ ("ps_Version", int16)
    ∷ ("ps_Revision", int16)
    ∷ ("ps_PED", struct_of printer_extended_data_fields)
    ∷ []

-- `STRUCTURE PrinterSegment`
abbrev pub printer_segment_source : List Directive
printer_segment_source =
    structure "PrinterSegment" (num 0)
    ∷ field ulong "ps_NextSegment"
    ∷ field ulong "ps_runAlert"
    ∷ field uword "ps_Version"
    ∷ field uword "ps_Revision"
    ∷ label "ps_PED"
    ∷ []

-- The structures of this file, with the symbol of each field and of the size.
abbrev pub prtbase_entries : List Entry
prtbase_entries =
    in_order device_data_fields device_data_source (some "dd_SIZEOF")
    ∷ in_order printer_extended_data_fields printer_extended_data_source (some "ped_SIZEOF")
    ∷ entry printer_segment_fields printer_segment_source
        ("ps_NextSegment" ∷ "ps_runAlert" ∷ "ps_Version" ∷ "ps_Revision" ∷ "ps_PED" ∷ []) (none)
    ∷ []
