-- ===== src/Layout/Graphics/Displayinfo.antt =====
-- Structures of targets/m68k-amigaos/ndk/include_h/graphics/displayinfo.h and of include_i/graphics/displayinfo.i beside it: `QueryHeader` to `NameInfo`.
use amiga_dev.Common.{some, List, [], ◌∷◌}
use amiga_dev.Layout.{Fields, array, int16, int32, int8, ptr, struct_of}
use amiga_dev.Layout.Asm.{
  Directive, aptr, field, label, num, struct, structure, sym, ubyte, ulong, uword, word,
}
use amiga_dev.Layout.Agree.{Entry, in_order}
use amiga_dev.Layout.Graphics.Gfx.{rectangle_fields, t_point_fields}

-- `struct QueryHeader`
abbrev pub query_header_fields : Fields
query_header_fields =
    ("StructID", int32) ∷ ("DisplayID", int32) ∷ ("SkipID", int32) ∷ ("Length", int32) ∷ []

-- `STRUCTURE QueryHeader`
abbrev pub query_header_source : List Directive
query_header_source =
    structure "QueryHeader" (num 0)
    ∷ field ulong "qh_StructID"
    ∷ field ulong "qh_DisplayID"
    ∷ field ulong "qh_SkipID"
    ∷ field ulong "qh_Length"
    ∷ label "qh_SIZEOF"
    ∷ []

-- `struct DisplayInfo`
abbrev pub display_info_fields : Fields
display_info_fields =
    ("Header", struct_of query_header_fields)
    ∷ ("NotAvailable", int16)
    ∷ ("PropertyFlags", int32)
    ∷ ("Resolution", struct_of t_point_fields)
    ∷ ("PixelSpeed", int16)
    ∷ ("NumStdSprites", int16)
    ∷ ("PaletteRange", int16)
    ∷ ("SpriteResolution", struct_of t_point_fields)
    ∷ ("pad", array 4 int8)
    ∷ ("RedBits", int8)
    ∷ ("GreenBits", int8)
    ∷ ("BlueBits", int8)
    ∷ ("pad2", array 5 int8)
    ∷ ("reserved", array 2 int32)
    ∷ []

-- `STRUCTURE DisplayInfo`
abbrev pub display_info_source : List Directive
display_info_source =
    structure "DisplayInfo" (sym "qh_SIZEOF")
    ∷ field uword "dis_NotAvailable"
    ∷ field ulong "dis_PropertyFlags"
    ∷ struct "dis_Resolution" (sym "tpt_SIZEOF")
    ∷ field uword "dis_PixelSpeed"
    ∷ field uword "dis_NumStdSprites"
    ∷ field uword "dis_PaletteRange"
    ∷ struct "dis_SpriteResolution" (sym "tpt_SIZEOF")
    ∷ struct "dis_pad" (num 4)
    ∷ field ubyte "RedBits"
    ∷ field ubyte "GreenBits"
    ∷ field ubyte "BlueBits"
    ∷ struct "dis_pad2" (num 5)
    ∷ struct "dis_reserved" (num 8)
    ∷ label "dis_SIZEOF"
    ∷ []

-- `struct DimensionInfo`
abbrev pub dimension_info_fields : Fields
dimension_info_fields =
    ("Header", struct_of query_header_fields)
    ∷ ("MaxDepth", int16)
    ∷ ("MinRasterWidth", int16)
    ∷ ("MinRasterHeight", int16)
    ∷ ("MaxRasterWidth", int16)
    ∷ ("MaxRasterHeight", int16)
    ∷ ("Nominal", struct_of rectangle_fields)
    ∷ ("MaxOScan", struct_of rectangle_fields)
    ∷ ("VideoOScan", struct_of rectangle_fields)
    ∷ ("TxtOScan", struct_of rectangle_fields)
    ∷ ("StdOScan", struct_of rectangle_fields)
    ∷ ("pad", array 14 int8)
    ∷ ("reserved", array 2 int32)
    ∷ []

-- `STRUCTURE DimensionInfo`
abbrev pub dimension_info_source : List Directive
dimension_info_source =
    structure "DimensionInfo" (sym "qh_SIZEOF")
    ∷ field uword "dim_MaxDepth"
    ∷ field uword "dim_MinRasterWidth"
    ∷ field uword "dim_MinRasterHeight"
    ∷ field uword "dim_MaxRasterWidth"
    ∷ field uword "dim_MaxRasterHeight"
    ∷ struct "dim_Nominal" (sym "ra_SIZEOF")
    ∷ struct "dim_MaxOScan" (sym "ra_SIZEOF")
    ∷ struct "dim_VideoOScan" (sym "ra_SIZEOF")
    ∷ struct "dim_TxtOScan" (sym "ra_SIZEOF")
    ∷ struct "dim_StdOScan" (sym "ra_SIZEOF")
    ∷ struct "dim_pad" (num 14)
    ∷ struct "dim_reserved" (num 8)
    ∷ label "dim_SIZEOF"
    ∷ []

-- `struct MonitorInfo`
abbrev pub monitor_info_fields : Fields
monitor_info_fields =
    ("Header", struct_of query_header_fields)
    ∷ ("Mspc", ptr)
    ∷ ("ViewPosition", struct_of t_point_fields)
    ∷ ("ViewResolution", struct_of t_point_fields)
    ∷ ("ViewPositionRange", struct_of rectangle_fields)
    ∷ ("TotalRows", int16)
    ∷ ("TotalColorClocks", int16)
    ∷ ("MinRow", int16)
    ∷ ("Compatibility", int16)
    ∷ ("pad", array 32 int8)
    ∷ ("MouseTicks", struct_of t_point_fields)
    ∷ ("DefaultViewPosition", struct_of t_point_fields)
    ∷ ("PreferredModeID", int32)
    ∷ ("reserved", array 2 int32)
    ∷ []

-- `STRUCTURE MonitorInfo`
abbrev pub monitor_info_source : List Directive
monitor_info_source =
    structure "MonitorInfo" (sym "qh_SIZEOF")
    ∷ field aptr "mtr_Mspc"
    ∷ struct "mtr_ViewPosition" (sym "tpt_SIZEOF")
    ∷ struct "mtr_ViewResolution" (sym "tpt_SIZEOF")
    ∷ struct "mtr_ViewPositionRange" (sym "ra_SIZEOF")
    ∷ field uword "mtr_TotalRows"
    ∷ field uword "mtr_TotalColorClocks"
    ∷ field uword "mtr_MinRow"
    ∷ field word "mtr_Compatibility"
    ∷ struct "mtr_pad" (num 32)
    ∷ struct "mtr_MouseTicks" (sym "tpt_SIZEOF")
    ∷ struct "mtr_DefaultViewPosition" (sym "tpt_SIZEOF")
    ∷ field ulong "mtr_PreferredModeID"
    ∷ struct "mtr_reserved" (num 8)
    ∷ label "mtr_SIZEOF"
    ∷ []

-- `struct NameInfo`
abbrev pub name_info_fields : Fields
name_info_fields =
    ("Header", struct_of query_header_fields)
    ∷ ("Name", array 32 int8)
    ∷ ("reserved", array 2 int32)
    ∷ []

-- `STRUCTURE NameInfo`
abbrev pub name_info_source : List Directive
name_info_source =
    structure "NameInfo" (sym "qh_SIZEOF")
    ∷ struct "nif_Name" (num 32)
    ∷ struct "nif_reserved" (num 8)
    ∷ label "nif_SIZEOF"
    ∷ []

-- The structures of this file, with the symbol of each field and of the size.
abbrev pub displayinfo_entries : List Entry
displayinfo_entries =
    in_order query_header_fields query_header_source (some "qh_SIZEOF")
    ∷ in_order display_info_fields display_info_source (some "dis_SIZEOF")
    ∷ in_order dimension_info_fields dimension_info_source (some "dim_SIZEOF")
    ∷ in_order monitor_info_fields monitor_info_source (some "mtr_SIZEOF")
    ∷ in_order name_info_fields name_info_source (some "nif_SIZEOF")
    ∷ []
