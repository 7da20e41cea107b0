-- ===== src/Layout/Devices/Printer.antt =====
-- Structures of targets/m68k-amigaos/ndk/include_h/devices/printer.h and of include_i/devices/printer.i beside it.
use amiga_dev.Common.{some, List, [], ◌∷◌}
use amiga_dev.Layout.{Fields, int32, ptr}
use amiga_dev.Layout.Asm.{Directive, aptr, field, label, long, num, structure, ulong}
use amiga_dev.Layout.Agree.{Entry, in_order}

-- `struct DRPSourceMsg`
abbrev pub drp_source_msg_fields : Fields
drp_source_msg_fields =
    ("x", int32) ∷ ("y", int32) ∷ ("width", int32) ∷ ("height", int32) ∷ ("buf", ptr) ∷ []

-- `STRUCTURE DRPSourceMsg`
abbrev pub drp_source_msg_source : List Directive
drp_source_msg_source =
    structure "DRPSourceMsg" (num 0)
    ∷ field long "drpsm_X"
    ∷ field long "drpsm_Y"
    ∷ field long "drpsm_Width"
    ∷ field long "drpsm_Height"
    ∷ field aptr "drpsm_Buf"
    ∷ label "drpsm_SIZEOF"
    ∷ []

-- `struct PrtErrMsg`
abbrev pub prt_err_msg_fields : Fields
prt_err_msg_fields =
    ("pe_Version", int32)
    ∷ ("pe_ErrorLevel", int32)
    ∷ ("pe_Window", ptr)
    ∷ ("pe_ES", ptr)
    ∷ ("pe_IDCMP", ptr)
    ∷ ("pe_ArgList", int32)
    ∷ []

-- `STRUCTURE PrtErrMsg`
abbrev pub prt_err_msg_source : List Directive
prt_err_msg_source =
    structure "PrtErrMsg" (num 0)
    ∷ field ulong "pem_Version"
    ∷ field ulong "pem_ErrorLevel"
    ∷ field aptr "pem_Window"
    ∷ field aptr "pem_ES"
    ∷ field aptr "pem_IDCMP"
    ∷ field aptr "pem_ArgList"
    ∷ label "pem_SIZEOF"
    ∷ []

-- The structures of this file, with the symbol of each field and of the size.
abbrev pub printer_entries : List Entry
printer_entries =
    in_order drp_source_msg_fields drp_source_msg_source (some "drpsm_SIZEOF")
    ∷ in_order prt_err_msg_fields prt_err_msg_source (some "pem_SIZEOF")
    ∷ []
