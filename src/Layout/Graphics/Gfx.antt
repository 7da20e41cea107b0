-- ===== src/Layout/Graphics/Gfx.antt =====
-- Structures of targets/m68k-amigaos/ndk/include_h/graphics/gfx.h and of include_i/graphics/gfx.i beside it.
use amiga_dev.Common.{some, List, [], ◌∷◌}
use amiga_dev.Layout.{Fields, array, int16, int32, int8}
use amiga_dev.Layout.Asm.{Directive, byte, field, label, long, num, struct, structure, times, word}
use amiga_dev.Layout.Agree.{Entry, in_order}

-- `struct Rectangle`
abbrev pub rectangle_fields : Fields
rectangle_fields = ("MinX", int16) ∷ ("MinY", int16) ∷ ("MaxX", int16) ∷ ("MaxY", int16) ∷ []

-- `STRUCTURE Rectangle`
abbrev pub rectangle_source : List Directive
rectangle_source =
    structure "Rectangle" (num 0)
    ∷ field word "ra_MinX"
    ∷ field word "ra_MinY"
    ∷ field word "ra_MaxX"
    ∷ field word "ra_MaxY"
    ∷ label "ra_SIZEOF"
    ∷ []

-- `struct Rect32`
abbrev pub rect32_fields : Fields
rect32_fields = ("MinX", int32) ∷ ("MinY", int32) ∷ ("MaxX", int32) ∷ ("MaxY", int32) ∷ []

-- `STRUCTURE Rect32`
abbrev pub rect32_source : List Directive
rect32_source =
    structure "Rect32" (num 0)
    ∷ field long "r32_MinX"
    ∷ field long "r32_MinY"
    ∷ field long "r32_MaxX"
    ∷ field long "r32_MaxY"
    ∷ label "r32_SIZEOF"
    ∷ []

-- `struct tPoint`
abbrev pub t_point_fields : Fields
t_point_fields = ("x", int16) ∷ ("y", int16) ∷ []

-- `STRUCTURE tPoint`
abbrev pub t_point_source : List Directive
t_point_source =
    structure "tPoint" (num 0) ∷ field word "tpt_x" ∷ field word "tpt_y" ∷ label "tpt_SIZEOF" ∷ []

-- `struct BitMap`
abbrev pub bit_map_fields : Fields
bit_map_fields =
    ("BytesPerRow", int16)
    ∷ ("Rows", int16)
    ∷ ("Flags", int8)
    ∷ ("Depth", int8)
    ∷ ("pad", int16)
    ∷ ("Planes", array 8 int32)
    ∷ []

-- `STRUCTURE BitMap`
abbrev pub bit_map_source : List Directive
bit_map_source =
    structure "BitMap" (num 0)
    ∷ field word "bm_BytesPerRow"
    ∷ field word "bm_Rows"
    ∷ field byte "bm_Flags"
    ∷ field byte "bm_Depth"
    ∷ field word "bm_Pad"
    ∷ struct "bm_Planes" (times (num 8) (num 4))
    ∷ label "bm_SIZEOF"
    ∷ []

-- The structures of this file, with the symbol of each field and of the size.
abbrev pub gfx_entries : List Entry
gfx_entries =
    in_order rectangle_fields rectangle_source (some "ra_SIZEOF")
    ∷ in_order rect32_fields rect32_source (some "r32_SIZEOF")
    ∷ in_order t_point_fields t_point_source (some "tpt_SIZEOF")
    ∷ in_order bit_map_fields bit_map_source (some "bm_SIZEOF")
    ∷ []
