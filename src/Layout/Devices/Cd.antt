-- ===== src/Layout/Devices/Cd.antt =====
-- Structures of targets/m68k-amigaos/ndk/include_h/devices/cd.h and of include_i/devices/cd.i beside it.
use amiga_dev.Common.{some, List, [], ◌∷◌}
use amiga_dev.Layout.{Fields, array, int16, int32, int8, ptr, struct_of}
use amiga_dev.Layout.Asm.{
  Directive, aptr, field, label, long, num, struct, structure, sym, ubyte, uword,
}
use amiga_dev.Layout.Agree.{Entry, in_order}
use amiga_dev.Layout.Exec.Nodes.{min_node_fields}

-- `struct CDInfo`
abbrev pub cd_info_fields : Fields
cd_info_fields =
    ("PlaySpeed", int16)
    ∷ ("ReadSpeed", int16)
    ∷ ("ReadXLSpeed", int16)
    ∷ ("SectorSize", int16)
    ∷ ("XLECC", int16)
    ∷ ("EjectReset", int16)
    ∷ ("Reserved1", array 4 int16)
    ∷ ("MaxSpeed", int16)
    ∷ ("AudioPrecision", int16)
    ∷ ("Status", int16)
    ∷ ("Reserved2", array 4 int16)
    ∷ []

-- `STRUCTURE CDINFO`
abbrev pub cd_info_source : List Directive
cd_info_source =
    structure "CDINFO" (num 0)
    ∷ field uword "CDINFO_PlaySpeed"
    ∷ field uword "CDINFO_ReadSpeed"
    ∷ field uword "CDINFO_ReadXLSpeed"
    ∷ field uword "CDINFO_SectorSize"
    ∷ field uword "CDINFO_XLECC"
    ∷ field uword "CDINFO_EjectReset"
    ∷ struct "CDINFO_Reserved1" (num 8)
    ∷ field uword "CDINFO_MaxSpeed"
    ∷ field uword "CDINFO_AudioPrecision"
    ∷ field uword "CDINFO_Status"
    ∷ struct "CDINFO_Reserved2" (num 8)
    ∷ label "CDINFO_SIZE"
    ∷ []

-- `struct RMSF`
abbrev pub rmsf_fields : Fields
rmsf_fields = ("Reserved", int8) ∷ ("Minute", int8) ∷ ("Second", int8) ∷ ("Frame", int8) ∷ []

-- `STRUCTURE RMSF`
abbrev pub rmsf_source : List Directive
rmsf_source =
    structure "RMSF" (num 0)
    ∷ field ubyte "Reserved"
    ∷ field ubyte "Minute"
    ∷ field ubyte "Second"
    ∷ field ubyte "Frame"
    ∷ label "RMSF_SIZE"
    ∷ []

-- `struct CDXL`
abbrev pub cdxl_fields : Fields
cdxl_fields =
    ("Node", struct_of min_node_fields)
    ∷ ("Buffer", ptr)
    ∷ ("Length", int32)
    ∷ ("Actual", int32)
    ∷ ("IntData", int32)
    ∷ ("IntCode", ptr)
    ∷ []

-- `STRUCTURE CDXL`
abbrev pub cdxl_source : List Directive
cdxl_source =
    structure "CDXL" (num 0)
    ∷ struct "CDXL_Node" (sym "MLN_SIZE")
    ∷ field aptr "CDXL_Buffer"
    ∷ field long "CDXL_Length"
    ∷ field long "CDXL_Actual"
    ∷ field aptr "CDXL_IntData"
    ∷ field aptr "CDXL_IntCode"
    ∷ label "CDXL_SIZE"
    ∷ []

-- The structures of this file, with the symbol of each field and of the size.
abbrev pub cd_entries : List Entry
cd_entries =
    in_order cd_info_fields cd_info_source (some "CDINFO_SIZE")
    ∷ in_order rmsf_fields rmsf_source (some "RMSF_SIZE")
    ∷ in_order cdxl_fields cdxl_source (some "CDXL_SIZE")
    ∷ []
