-- ===== src/Layout/Graphics/Clip.antt =====
-- Structures of targets/m68k-amigaos/ndk/include_h/graphics/clip.h and of include_i/graphics/clip.i beside it.
use amiga_dev.Common.{some, List, [], ◌∷◌}
use amiga_dev.Layout.{Fields, int32, ptr, struct_of}
use amiga_dev.Layout.Asm.{Directive, aptr, field, label, long, num, structure, word}
use amiga_dev.Layout.Agree.{Entry, entry}
use amiga_dev.Layout.Graphics.Gfx.{rectangle_fields}

-- `struct ClipRect`
abbrev pub clip_rect_fields : Fields
clip_rect_fields =
    ("Next", ptr)
    ∷ ("prev", ptr)
    ∷ ("lobs", ptr)
    ∷ ("BitMap", ptr)
    ∷ ("bounds", struct_of rectangle_fields)
    ∷ ("_p1", ptr)
    ∷ ("_p2", ptr)
    ∷ ("reserved", int32)
    ∷ ("Flags", int32)
    ∷ []

-- `STRUCTURE ClipRect`
abbrev pub clip_rect_source : List Directive
clip_rect_source =
    structure "ClipRect" (num 0)
    ∷ field long "cr_Next"
    ∷ field long "cr_prev"
    ∷ field long "cr_lobs"
    ∷ field long "cr_BitMap"
    ∷ field word "cr_MinX"
    ∷ field word "cr_MinY"
    ∷ field word "cr_MaxX"
    ∷ field word "cr_MaxY"
    ∷ field aptr "cr__p1"
    ∷ field aptr "cr__p2"
    ∷ field long "cr_reserved"
    ∷ field long "cr_Flags"
    ∷ label "cr_SIZEOF"
    ∷ []

-- The structures of this file, with the symbol of each field and of the size.
abbrev pub clip_entries : List Entry
clip_entries =
    entry clip_rect_fields clip_rect_source
      ("cr_Next" ∷ "cr_prev" ∷ "cr_lobs" ∷ "cr_BitMap" ∷ "cr_MinX" ∷ "cr__p1" ∷ "cr__p2"
        ∷ "cr_reserved" ∷ "cr_Flags" ∷ [])
      (some "cr_SIZEOF")
    ∷ []
