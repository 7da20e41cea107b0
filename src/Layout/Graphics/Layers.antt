-- ===== src/Layout/Graphics/Layers.antt =====
-- Structures of targets/m68k-amigaos/ndk/include_h/graphics/layers.h and of include_i/graphics/layers.i beside it.
use amiga_dev.Common.{some, List, [], ◌∷◌}
use amiga_dev.Layout.{Fields, int16, int32, int8, ptr, struct_of}
use amiga_dev.Layout.Asm.{
  Directive, aptr, byte, field, label, long, num, struct, structure, sym, word,
}
use amiga_dev.Layout.Agree.{Entry, in_order}
use amiga_dev.Layout.Exec.Lists.{min_list_fields}
use amiga_dev.Layout.Exec.Semaphores.{signal_semaphore_fields}

-- `struct Layer_Info`
abbrev pub layer_info_fields : Fields
layer_info_fields =
    ("top_layer", ptr)
    ∷ ("check_lp", ptr)
    ∷ ("obs", ptr)
    ∷ ("FreeClipRects", ptr)
    ∷ ("PrivateReserve1", int32)
    ∷ ("PrivateReserve2", int32)
    ∷ ("Lock", struct_of signal_semaphore_fields)
    ∷ ("gs_Head", struct_of min_list_fields)
    ∷ ("PrivateReserve3", int16)
    ∷ ("PrivateReserve4", ptr)
    ∷ ("Flags", int16)
    ∷ ("fatten_count", int8)
    ∷ ("LockLayersCount", int8)
    ∷ ("PrivateReserve5", int16)
    ∷ ("BlankHook", ptr)
    ∷ ("LayerInfo_extra", ptr)
    ∷ []

-- `STRUCTURE Layer_Info`
abbrev pub layer_info_source : List Directive
layer_info_source =
    structure "Layer_Info" (num 0)
    ∷ field aptr "li_top_layer"
    ∷ field aptr "li_check_lp"
    ∷ field aptr "li_obs"
    ∷ field aptr "li_FreeClipRects"
    ∷ field long "li_PrivateReserve1"
    ∷ field long "li_PrivateReserve2"
    ∷ struct "li_Lock" (sym "SS_SIZE")
    ∷ struct "li_gs_Head" (sym "MLH_SIZE")
    ∷ field word "li_PrivateReserve3"
    ∷ field aptr "li_PrivateReserve4"
    ∷ field word "li_Flags"
    ∷ field byte "li_fatten_count"
    ∷ field byte "li_LockLayersCount"
    ∷ field word "li_PrivateReserve5"
    ∷ field aptr "li_BlankHook"
    ∷ field aptr "li_LayerInfo_extra"
    ∷ label "li_SIZEOF"
    ∷ []

-- The structures of this file, with the symbol of each field and of the size.
abbrev pub layers_entries : List Entry
layers_entries = in_order layer_info_fields layer_info_source (some "li_SIZEOF") ∷ []
