-- ===== src/Layout/Graphics/ViewFromPaletteextra.antt =====
-- Structures of targets/m68k-amigaos/ndk/include_h/graphics/view.h and of include_i/graphics/view.i beside it: `PaletteExtra` to `DBufInfo`.
use amiga_dev.Common.{some, List, [], ◌∷◌}
use amiga_dev.Layout.{Fields, int16, int32, ptr, struct_of}
use amiga_dev.Layout.Asm.{Directive, aptr, field, label, num, struct, structure, sym, ulong, uword}
use amiga_dev.Layout.Agree.{Entry, in_order}
use amiga_dev.Layout.Exec.Ports.{message_fields}
use amiga_dev.Layout.Exec.Semaphores.{signal_semaphore_fields}

-- `struct PaletteExtra`
abbrev pub palette_extra_fields : Fields
palette_extra_fields =
    ("pe_Semaphore", struct_of signal_semaphore_fields)
    ∷ ("pe_FirstFree", int16)
    ∷ ("pe_NFree", int16)
    ∷ ("pe_FirstShared", int16)
    ∷ ("pe_NShared", int16)
    ∷ ("pe_RefCnt", ptr)
    ∷ ("pe_AllocList", ptr)
    ∷ ("pe_ViewPort", ptr)
    ∷ ("pe_SharableColors", int16)
    ∷ []

-- `STRUCTURE PaletteExtra`
abbrev pub palette_extra_source : List Directive
palette_extra_source =
    structure "PaletteExtra" (num 0)
    ∷ struct "pe_Semaphore" (sym "SS_SIZE")
    ∷ field uword "pe_FirstFree"
    ∷ field uword "pe_NFree"
    ∷ field uword "pe_FirstShared"
    ∷ field uword "pe_NShared"
    ∷ field aptr "pe_RefCnt"
    ∷ field aptr "pe_AllocList"
    ∷ field aptr "pe_ViewPort"
    ∷ field uword "pe_SharableColors"
    ∷ label "pe_SIZEOF"
    ∷ []

-- `struct DBufInfo`
abbrev pub d_buf_info_fields : Fields
d_buf_info_fields =
    ("dbi_Link1", int32)
    ∷ ("dbi_Count1", int32)
    ∷ ("dbi_SafeMessage", struct_of message_fields)
    ∷ ("dbi_UserData1", int32)
    ∷ ("dbi_Link2", int32)
    ∷ ("dbi_Count2", int32)
    ∷ ("dbi_DispMessage", struct_of message_fields)
    ∷ ("dbi_UserData2", int32)
    ∷ ("dbi_MatchLong", int32)
    ∷ ("dbi_CopPtr1", int32)
    ∷ ("dbi_CopPtr2", int32)
    ∷ ("dbi_CopPtr3", int32)
    ∷ ("dbi_BeamPos1", int16)
    ∷ ("dbi_BeamPos2", int16)
    ∷ []

-- `STRUCTURE DBufInfo`
abbrev pub d_buf_info_source : List Directive
d_buf_info_source =
    structure "DBufInfo" (num 0)
    ∷ field aptr "dbi_Link1"
    ∷ field ulong "dbi_Count1"
    ∷ struct "dbi_SafeMessage" (sym "MN_SIZE")
    ∷ field aptr "dbi_UserData1"
    ∷ field aptr "dbi_Link2"
    ∷ field ulong "dbi_Count2"
    ∷ struct "dbi_DispMessage" (sym "MN_SIZE")
    ∷ field aptr "dbi_UserData2"
    ∷ field ulong "dbi_MatchLong"
    ∷ field aptr "dbi_CopPtr1"
    ∷ field aptr "dbi_CopPtr2"
    ∷ field aptr "dbi_CopPtr3"
    ∷ field uword "dbi_BeamPos1"
    ∷ field uword "dbi_BeamPos2"
    ∷ label "dbi_SIZEOF"
    ∷ []

-- The structures of this file, with the symbol of each field and of the size.
abbrev pub view_from_paletteextra_entries : List Entry
view_from_paletteextra_entries =
    in_order palette_extra_fields palette_extra_source (some "pe_SIZEOF")
    ∷ in_order d_buf_info_fields d_buf_info_source (some "dbi_SIZEOF")
    ∷ []
