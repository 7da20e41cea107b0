-- ===== src/Layout/Devices/Trackdisk.antt =====
-- Structures of targets/m68k-amigaos/ndk/include_h/devices/trackdisk.h and of include_i/devices/trackdisk.i beside it.
use amiga_dev.Common.{some, List, [], ◌∷◌}
use amiga_dev.Layout.{Fields, int16, int32, int8, struct_of}
use amiga_dev.Layout.Asm.{Directive, field, label, num, structure, sym, ubyte, ulong, uword}
use amiga_dev.Layout.Agree.{Entry, in_order}
use amiga_dev.Layout.Exec.Devices.{unit_fields}
use amiga_dev.Layout.Exec.Io.{io_std_req_fields}

-- `struct IOExtTD`
abbrev pub io_ext_td_fields : Fields
io_ext_td_fields =
    ("iotd_Req", struct_of io_std_req_fields)
    ∷ ("iotd_Count", int32)
    ∷ ("iotd_SecLabel", int32)
    ∷ []

-- `STRUCTURE IOEXTTD`
abbrev pub io_ext_td_source : List Directive
io_ext_td_source =
    structure "IOEXTTD" (sym "IOSTD_SIZE")
    ∷ field ulong "IOTD_COUNT"
    ∷ field ulong "IOTD_SECLABEL"
    ∷ label "IOTD_SIZE"
    ∷ []

-- `struct DriveGeometry`
abbrev pub drive_geometry_fields : Fields
drive_geometry_fields =
    ("dg_SectorSize", int32)
    ∷ ("dg_TotalSectors", int32)
    ∷ ("dg_Cylinders", int32)
    ∷ ("dg_CylSectors", int32)
    ∷ ("dg_Heads", int32)
    ∷ ("dg_TrackSectors", int32)
    ∷ ("dg_BufMemType", int32)
    ∷ ("dg_DeviceType", int8)
    ∷ ("dg_Flags", int8)
    ∷ ("dg_Reserved", int16)
    ∷ []

-- `STRUCTURE DriveGeometry`
abbrev pub drive_geometry_source : List Directive
drive_geometry_source =
    structure "DriveGeometry" (num 0)
    ∷ field ulong "dg_SectorSize"
    ∷ field ulong "dg_TotalSectors"
    ∷ field ulong "dg_Cylinders"
    ∷ field ulong "dg_CylSectors"
    ∷ field ulong "dg_Heads"
    ∷ field ulong "dg_TrackSectors"
    ∷ field ulong "dg_BufMemType"
    ∷ field ubyte "dg_DeviceType"
    ∷ field ubyte "dg_Flags"
    ∷ field uword "dg_Reserved"
    ∷ label "dg_SIZEOF"
    ∷ []

-- `struct TDU_PublicUnit`
abbrev pub tdu_public_unit_fields : Fields
tdu_public_unit_fields =
    ("tdu_Unit", struct_of unit_fields)
    ∷ ("tdu_Comp01Track", int16)
    ∷ ("tdu_Comp10Track", int16)
    ∷ ("tdu_Comp11Track", int16)
    ∷ ("tdu_StepDelay", int32)
    ∷ ("tdu_SettleDelay", int32)
    ∷ ("tdu_RetryCnt", int8)
    ∷ ("tdu_PubFlags", int8)
    ∷ ("tdu_CurrTrk", int16)
    ∷ ("tdu_CalibrateDelay", int32)
    ∷ ("tdu_Counter", int32)
    ∷ []

-- `STRUCTURE TDU_PUBLICUNIT`
abbrev pub tdu_public_unit_source : List Directive
tdu_public_unit_source =
    structure "TDU_PUBLICUNIT" (sym "UNIT_SIZE")
    ∷ field uword "TDU_COMP01TRACK"
    ∷ field uword "TDU_COMP10TRACK"
    ∷ field uword "TDU_COMP11TRACK"
    ∷ field ulong "TDU_STEPDELAY"
    ∷ field ulong "TDU_SETTLEDELAY"
    ∷ field ubyte "TDU_RETRYCNT"
    ∷ field ubyte "TDU_PUBFLAGS"
    ∷ field uword "TDU_CURRTRK"
    ∷ field ulong "TDU_CALIBRATEDELAY"
    ∷ field ulong "TDU_COUNTER"
    ∷ label "TDU_PUBLICUNITSIZE"
    ∷ []

-- The structures of this file, with the symbol of each field and of the size.
abbrev pub trackdisk_entries : List Entry
trackdisk_entries =
    in_order io_ext_td_fields io_ext_td_source (some "IOTD_SIZE")
    ∷ in_order drive_geometry_fields drive_geometry_source (some "dg_SIZEOF")
    ∷ in_order tdu_public_unit_fields tdu_public_unit_source (some "TDU_PUBLICUNITSIZE")
    ∷ []
