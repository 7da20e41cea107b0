-- ===== src/Layout/Graphics/Monitor.antt =====
-- Structures of targets/m68k-amigaos/ndk/include_h/graphics/monitor.h and of include_i/graphics/monitor.i beside it.
use amiga_dev.Common.{some, List, [], ◌∷◌}
use amiga_dev.Layout.{Fields, int16, int32, ptr, struct_of}
use amiga_dev.Layout.Asm.{
  Directive, aptr, field, label, long, num, struct, structure, sym, ulong, uword,
}
use amiga_dev.Layout.Agree.{Entry, in_order}
use amiga_dev.Layout.Exec.Lists.{list_fields}
use amiga_dev.Layout.Exec.Semaphores.{signal_semaphore_fields}
use amiga_dev.Layout.Graphics.Gfx.{rectangle_fields}
use amiga_dev.Layout.Graphics.Gfxnodes.{extended_node_fields}

-- `struct MonitorSpec`
abbrev pub monitor_spec_fields : Fields
monitor_spec_fields =
    ("ms_Node", struct_of extended_node_fields)
    ∷ ("ms_Flags", int16)
    ∷ ("ratioh", int32)
    ∷ ("ratiov", int32)
    ∷ ("total_rows", int16)
    ∷ ("total_colorclocks", int16)
    ∷ ("DeniseMaxDisplayColumn", int16)
    ∷ ("BeamCon0", int16)
    ∷ ("min_row", int16)
    ∷ ("ms_Special", ptr)
    ∷ ("ms_OpenCount", int16)
    ∷ ("ms_transform", ptr)
    ∷ ("ms_translate", ptr)
    ∷ ("ms_scale", ptr)
    ∷ ("ms_xoffset", int16)
    ∷ ("ms_yoffset", int16)
    ∷ ("ms_LegalView", struct_of rectangle_fields)
    ∷ ("ms_maxoscan", ptr)
    ∷ ("ms_videoscan", ptr)
    ∷ ("DeniseMinDisplayColumn", int16)
    ∷ ("DisplayCompatible", int32)
    ∷ ("DisplayInfoDataBase", struct_of list_fields)
    ∷ ("DisplayInfoDataBaseSemaphore", struct_of signal_semaphore_fields)
    ∷ ("ms_MrgCop", ptr)
    ∷ ("ms_LoadView", ptr)
    ∷ ("ms_KillView", ptr)
    ∷ []

-- `STRUCTURE MonitorSpec`
abbrev pub monitor_spec_source : List Directive
monitor_spec_source =
    structure "MonitorSpec" (sym "XLN_SIZE")
    ∷ field uword "ms_Flags"
    ∷ field long "ms_ratioh"
    ∷ field long "ms_ratiov"
    ∷ field uword "ms_total_rows"
    ∷ field uword "ms_total_colorclocks"
    ∷ field uword "ms_DeniseMaxDisplayColumn"
    ∷ field uword "ms_BeamCon0"
    ∷ field uword "ms_min_row"
    ∷ field aptr "ms_Special"
    ∷ field uword "ms_OpenCount"
    ∷ field aptr "ms_transform"
    ∷ field aptr "ms_translate"
    ∷ field aptr "ms_scale"
    ∷ field uword "ms_xoffset"
    ∷ field uword "ms_yoffset"
    ∷ struct "ms_LegalView" (sym "ra_SIZEOF")
    ∷ field aptr "ms_maxoscan"
    ∷ field aptr "ms_videoscan"
    ∷ field uword "ms_DeniseMinDisplayColumn"
    ∷ field ulong "ms_DisplayCompatible"
    ∷ struct "ms_DisplayInfoDataBase" (sym "LH_SIZE")
    ∷ struct "ms_DIDBSemaphore" (sym "SS_SIZE")
    ∷ field ulong "ms_MrgCop"
    ∷ field ulong "ms_LoadView"
    ∷ field ulong "ms_KillView"
    ∷ label "ms_SIZEOF"
    ∷ []

-- `struct AnalogSignalInterval`
abbrev pub analog_signal_interval_fields : Fields
analog_signal_interval_fields = ("asi_Start", int16) ∷ ("asi_Stop", int16) ∷ []

-- `STRUCTURE AnalogSignalInterval`
abbrev pub analog_signal_interval_source : List Directive
analog_signal_interval_source =
    structure "AnalogSignalInterval" (num 0)
    ∷ field uword "asi_Start"
    ∷ field uword "asi_Stop"
    ∷ label "asi_SIZEOF"
    ∷ []

-- `struct SpecialMonitor`
abbrev pub special_monitor_fields : Fields
special_monitor_fields =
    ("spm_Node", struct_of extended_node_fields)
    ∷ ("spm_Flags", int16)
    ∷ ("do_monitor", ptr)
    ∷ ("reserved1", ptr)
    ∷ ("reserved2", ptr)
    ∷ ("reserved3", ptr)
    ∷ ("hblank", struct_of analog_signal_interval_fields)
    ∷ ("vblank", struct_of analog_signal_interval_fields)
    ∷ ("hsync", struct_of analog_signal_interval_fields)
    ∷ ("vsync", struct_of analog_signal_interval_fields)
    ∷ []

-- `STRUCTURE SpecialMonitor`
abbrev pub special_monitor_source : List Directive
special_monitor_source =
    structure "SpecialMonitor" (sym "XLN_SIZE")
    ∷ field uword "spm_Flags"
    ∷ field aptr "spm_do_monitor"
    ∷ field aptr "spm_reserved1"
    ∷ field aptr "spm_reserved2"
    ∷ field aptr "spm_reserved3"
    ∷ struct "spm_hblank" (sym "asi_SIZEOF")
    ∷ struct "spm_vblank" (sym "asi_SIZEOF")
    ∷ struct "spm_hsync" (sym "asi_SIZEOF")
    ∷ struct "spm_vsync" (sym "asi_SIZEOF")
    ∷ label "spm_SIZEOF"
    ∷ []

-- The structures of this file, with the symbol of each field and of the size.
abbrev pub monitor_entries : List Entry
monitor_entries =
    in_order monitor_spec_fields monitor_spec_source (some "ms_SIZEOF")
    ∷ in_order analog_signal_interval_fields analog_signal_interval_source (some "asi_SIZEOF")
    ∷ in_order special_monitor_fields special_monitor_source (some "spm_SIZEOF")
    ∷ []
