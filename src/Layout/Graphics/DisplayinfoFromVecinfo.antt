-- ===== src/Layout/Graphics/DisplayinfoFromVecinfo.antt =====
-- Structures of targets/m68k-amigaos/ndk/include_h/graphics/displayinfo.h and of include_i/graphics/displayinfo.i beside it: `VecInfo` to `VecInfo`.
use amiga_dev.Common.{some, List, [], ◌∷◌}
use amiga_dev.Layout.{Fields, array, int16, int32, struct_of}
use amiga_dev.Layout.Asm.{Directive, aptr, field, label, num, struct, structure, sym, uword}
use amiga_dev.Layout.Agree.{Entry, in_order}
use amiga_dev.Layout.Graphics.Displayinfo.{query_header_fields}

-- `struct VecInfo`
abbrev pub vec_info_fields : Fields
vec_info_fields =
    ("Header", struct_of query_header_fields)
    ∷ ("Vec", int32)
    ∷ ("Data", int32)
    ∷ ("Type", int16)
    ∷ ("pad", array 3 int16)
    ∷ ("reserved", array 2 int32)
    ∷ []

-- `STRUCTURE VecInfo`
abbrev pub vec_info_source : List Directive
vec_info_source =
    structure "VecInfo" (sym "qh_SIZEOF")
    ∷ field aptr "vec_Vec"
    ∷ field aptr "vec_Data"
    ∷ field uword "vec_Type"
    ∷ struct "vec_pad" (num 6)
    ∷ struct "vec_reserved" (num 8)
    ∷ label "vec_SIZEOF"
    ∷ []

-- The structures of this file, with the symbol of each field and of the size.
abbrev pub displayinfo_from_vecinfo_entries : List Entry
displayinfo_from_vecinfo_entries = in_order vec_info_fields vec_info_source (some "vec_SIZEOF") ∷ []
