-- ===== src/Layout/Devices/Prtgfx.antt =====
-- Structures of targets/m68k-amigaos/ndk/include_h/devices/prtgfx.h and of include_i/devices/prtgfx.i beside it.
use amiga_dev.Common.{some, List, [], ◌∷◌}
use amiga_dev.Layout.{Fields, int16, int32, ptr}
use amiga_dev.Layout.Asm.{Directive, aptr, field, label, num, structure, ulong, uword}
use amiga_dev.Layout.Agree.{Entry, in_order}

-- `struct PrtInfo`
abbrev pub prt_info_fields : Fields
prt_info_fields =
    ("pi_render", ptr)
    ∷ ("pi_rp", ptr)
    ∷ ("pi_temprp", ptr)
    ∷ ("pi_RowBuf", ptr)
    ∷ ("pi_HamBuf", ptr)
    ∷ ("pi_ColorMap", ptr)
    ∷ ("pi_ColorInt", ptr)
    ∷ ("pi_HamInt", ptr)
    ∷ ("pi_Dest1Int", ptr)
    ∷ ("pi_Dest2Int", ptr)
    ∷ ("pi_ScaleX", ptr)
    ∷ ("pi_ScaleXAlt", ptr)
    ∷ ("pi_dmatrix", ptr)
    ∷ ("pi_TopBuf", ptr)
    ∷ ("pi_BotBuf", ptr)
    ∷ ("pi_RowBufSize", int16)
    ∷ ("pi_HamBufSize", int16)
    ∷ ("pi_ColorMapSize", int16)
    ∷ ("pi_ColorIntSize", int16)
    ∷ ("pi_HamIntSize", int16)
    ∷ ("pi_Dest1IntSize", int16)
    ∷ ("pi_Dest2IntSize", int16)
    ∷ ("pi_ScaleXSize", int16)
    ∷ ("pi_ScaleXAltSize", int16)
    ∷ ("pi_PrefsFlags", int16)
    ∷ ("pi_special", int32)
    ∷ ("pi_xstart", int16)
    ∷ ("pi_ystart", int16)
    ∷ ("pi_width", int16)
    ∷ ("pi_height", int16)
    ∷ ("pi_pc", int32)
    ∷ ("pi_pr", int32)
    ∷ ("pi_ymult", int16)
    ∷ ("pi_ymod", int16)
    ∷ ("pi_ety", int16)
    ∷ ("pi_xpos", int16)
    ∷ ("pi_threshold", int16)
    ∷ ("pi_tempwidth", int16)
    ∷ ("pi_flags", int16)
    ∷ ("pi_ReduceBuf", ptr)
    ∷ ("pi_ReduceBufSize", int16)
    ∷ ("pi_SourceHook", ptr)
    ∷ ("pi_InvertHookBuf", ptr)
    ∷ []

-- `STRUCTURE PrtInfo`
abbrev pub prt_info_source : List Directive
prt_info_source =
    structure "PrtInfo" (num 0)
    ∷ field aptr "pi_render"
    ∷ field aptr "pi_rp"
    ∷ field aptr "pi_temprp"
    ∷ field aptr "pi_RowBuf"
    ∷ field aptr "pi_HamBuf"
    ∷ field aptr "pi_ColorMap"
    ∷ field aptr "pi_ColorInt"
    ∷ field aptr "pi_HamInt"
    ∷ field aptr "pi_Dest1Int"
    ∷ field aptr "pi_Dest2Int"
    ∷ field aptr "pi_ScaleX"
    ∷ field aptr "pi_ScaleXAlt"
    ∷ field aptr "pi_dmatrix"
    ∷ field aptr "pi_TopBuf"
    ∷ field aptr "pi_BotBuf"
    ∷ field uword "pi_RowBufSize"
    ∷ field uword "pi_HamBufSize"
    ∷ field uword "pi_ColorMapSize"
    ∷ field uword "pi_ColorIntSize"
    ∷ field uword "pi_HamIntSize"
    ∷ field uword "pi_Dest1IntSize"
    ∷ field uword "pi_Dest2IntSize"
    ∷ field uword "pi_ScaleXSize"
    ∷ field uword "pi_ScaleXAltSize"
    ∷ field uword "pi_PrefsFlags"
    ∷ field ulong "pi_special"
    ∷ field uword "pi_xstart"
    ∷ field uword "pi_ystart"
    ∷ field uword "pi_width"
    ∷ field uword "pi_height"
    ∷ field ulong "pi_pc"
    ∷ field ulong "pi_pr"
    ∷ field uword "pi_ymult"
    ∷ field uword "pi_ymod"
    ∷ field uword "pi_ety"
    ∷ field uword "pi_xpos"
    ∷ field uword "pi_threshold"
    ∷ field uword "pi_tempwidth"
    ∷ field uword "pi_flags"
    ∷ field aptr "pi_ReduceBuf"
    ∷ field uword "pi_ReduceBufSize"
    ∷ field aptr "pi_SourceHook"
    ∷ field aptr "pi_InvertHookBuf"
    ∷ label "prtinfo_SIZEOF"
    ∷ []

-- The structures of this file, with the symbol of each field and of the size.
abbrev pub prtgfx_entries : List Entry
prtgfx_entries = in_order prt_info_fields prt_info_source (some "prtinfo_SIZEOF") ∷ []
